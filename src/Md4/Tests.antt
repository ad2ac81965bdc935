-- ===== src/Md4/Tests.antt =====
-- A digest of RFC 1320 that adduser/md4_hash.c computes, and the theorem at its message.
use ksmbd_tools.Base.{◌≡◌, refl, arith, [], ◌∷◌, replicate}
use ksmbd_tools.Rpc.Ndr.{le_value, le_octets}
use ksmbd_tools.Md4.Stream.{update_all, joined}
use ksmbd_tools.Md4.Digest.{md4, md4_final-md4_update}
use ksmbd_tools.Md4.{
  md4_init, md4_update, md4_final, md4_transform, md4_transform_helper, md4_round, md4_step, lshift,
  round_f, round_g, round_h, word_at, words_of,
}

abc :
    md4_final (md4_update (md4_init (replicate 64 7)) (b'a' ∷ b'b' ∷ b'c' ∷ []))
    ≡ 0xa4 ∷ 0x48 ∷ 0x01 ∷ 0x7a ∷ 0xaf ∷ 0x21 ∷ 0xd8 ∷ 0x52 ∷ 0x5f ∷ 0xc1 ∷ 0x0a ∷ 0xe8 ∷ 0x7a
      ∷ 0xa6 ∷ 0x72 ∷ 0x9d ∷ []
unfolding md4_final md4_update md4_init md4_transform md4_transform_helper md4_round md4_step lshift
    round_f round_g round_h word_at words_of le_value le_octets
abc = refl

md4_final-md4_update_example :
    md4_final (update_all (md4_init (replicate 64 7)) ((b'a' ∷ []) ∷ (b'b' ∷ b'c' ∷ []) ∷ []))
    ≡ md4 (joined ((b'a' ∷ []) ∷ (b'b' ∷ b'c' ∷ []) ∷ []))
md4_final-md4_update_example =
    md4_final-md4_update ((b'a' ∷ []) ∷ (b'b' ∷ b'c' ∷ []) ∷ []) (replicate 64 7) refl
      (unfold joined in omega arith)
