-- ===== src/Vnc/DesTests.antt =====
-- The published vector of DES.
use rust_desk_enhanced.Prelude.{ℕ, List, [], ◌∷◌, ◌≡◌, refl}
use rust_desk_enhanced.Vnc.Des.{
  bit, gather, permute, left_aligned, subkeys_from, key_schedule, substitute, feistel, rounds,
  encrypt_block,
}

everything : Unit {0}
unfolding bit gather permute left_aligned subkeys_from key_schedule substitute feistel rounds
    encrypt_block
everything = tt

abbrev key : List ℕ
key = 0x13 ∷ 0x34 ∷ 0x57 ∷ 0x79 ∷ 0x9B ∷ 0xBC ∷ 0xDF ∷ 0xF1 ∷ []

published :
    encrypt_block (key_schedule key) (0x01 ∷ 0x23 ∷ 0x45 ∷ 0x67 ∷ 0x89 ∷ 0xAB ∷ 0xCD ∷ 0xEF ∷ [])
    ≡ 0x85 ∷ 0xE8 ∷ 0x13 ∷ 0x54 ∷ 0x0F ∷ 0x0A ∷ 0xB4 ∷ 0x05 ∷ []
unfolding everything
published = refl
