-- ===== src/Vnc/Des.antt =====
-- crates/rd-engine/src/vnc/auth.rs: the DES of VNC authentication.
-- A u32 and a u64 keep their width; `reverse_bits` is written out for a byte.
use rust_desk_enhanced.Prelude.{
  ℕ, ◌+◌, ◌-◌, ◌*◌, ◌/◌, ◌%◌, ◌^◌, bit_or, List, [], ◌∷◌, ◌++◌, get_or,
}
use Prim.Native.Nat.{bit_xor}
use rust_desk_enhanced.Vnc.DesTables.{
  initial_permutation, final_permutation, permuted_choice_1, permuted_choice_2, shifts, expansion,
  round_permutation, substitution_boxes,
}

-- `to_be_bytes` of a u64 and of a u32
abbrev pub u64_be : ℕ → List ℕ
u64_be n =
    n / 2 ^ 56
    ∷ n / 2 ^ 48 % 256
    ∷ n / 2 ^ 40 % 256
    ∷ n / 2 ^ 32 % 256
    ∷ n / 2 ^ 24 % 256
    ∷ n / 2 ^ 16 % 256
    ∷ n / 2 ^ 8 % 256
    ∷ n % 256
    ∷ []

abbrev pub word_be : ℕ → List ℕ
word_be n = n / 2 ^ 24 ∷ n / 2 ^ 16 % 256 ∷ n / 2 ^ 8 % 256 ∷ n % 256 ∷ []

unfoldable pub bit : List ℕ → ℕ → ℕ
bit bytes position =
    let index = position - 1 in get_or bytes (index / 8) 0 / 2 ^ (7 - index % 8) % 2

-- The loop of `permute`.
unfoldable pub gather : List ℕ → List ℕ → ℕ → ℕ
gather source [] out = out
gather source (position ∷ table) out =
    gather source table (bit_or (out * 2 % 2 ^ 64) (bit source position))

unfoldable pub permute : List ℕ → List ℕ → ℕ
permute source table = gather source table 0

unfoldable pub left_aligned : (value width : ℕ) → List ℕ
left_aligned value width = u64_be (value * 2 ^ (64 - width) % 2 ^ 64)

abbrev pub reverse_bits : ℕ → ℕ
reverse_bits b =
    b % 2 * 128
    + b / 2 % 2 * 64
    + b / 4 % 2 * 32
    + b / 8 % 2 * 16
    + b / 16 % 2 * 8
    + b / 32 % 2 * 4
    + b / 64 % 2 * 2
    + b / 128 % 2

unfoldable pub vnc_key_from_password : List ℕ → List ℕ
vnc_key_from_password password =
    let key : ℕ → ℕ = λ index. reverse_bits (get_or password index 0) in
    key 0 ∷ key 1 ∷ key 2 ∷ key 3 ∷ key 4 ∷ key 5 ∷ key 6 ∷ key 7 ∷ []

-- A half of 28 bits, rotated to the left.
abbrev pub rotate : (half shift : ℕ) → ℕ
rotate half shift = bit_or (half * 2 ^ shift % 2 ^ 32) (half / 2 ^ (28 - shift)) % 2 ^ 28

abbrev pub six_bytes : ℕ → List ℕ
six_bytes packed =
    packed / 2 ^ 40 % 256
    ∷ packed / 2 ^ 32 % 256
    ∷ packed / 2 ^ 24 % 256
    ∷ packed / 2 ^ 16 % 256
    ∷ packed / 2 ^ 8 % 256
    ∷ packed % 256
    ∷ []

-- One round's subkey from the two halves.
abbrev pub subkey_of : (left right : ℕ) → List ℕ
subkey_of left right =
    six_bytes (permute (u64_be (bit_or (left * 2 ^ 36) (right * 2 ^ 8))) permuted_choice_2)

-- The loop of `DesKeySchedule::new` over the shifts.
unfoldable pub subkeys_from : (left right : ℕ) → List ℕ → List (List ℕ)
subkeys_from left right [] = []
subkeys_from left right (shift ∷ later) =
    subkey_of (rotate left shift) (rotate right shift)
    ∷ subkeys_from (rotate left shift) (rotate right shift) later

-- `DesKeySchedule::new`: the subkeys
unfoldable pub key_schedule : List ℕ → List (List ℕ)
key_schedule key =
    let selected = permute key permuted_choice_1 in
    subkeys_from (selected / 2 ^ 28 % 2 ^ 28) (selected % 2 ^ 28) shifts

-- One box's four bits.
abbrev pub box_value : List (List ℕ) → ℕ → ℕ
box_value box six = get_or (get_or box (bit_or (six / 32 % 2 * 2) (six % 2)) []) (six / 2 % 16) 0

-- The loop over the boxes.
unfoldable pub substitute : (mixed shift : ℕ) → List (List (List ℕ)) → ℕ → ℕ
substitute mixed shift [] out = out
substitute mixed shift (box ∷ boxes) out =
    substitute mixed (shift - 6) boxes
      (bit_or (out * 16 % 2 ^ 32) (box_value box (mixed / 2 ^ shift % 64)))

abbrev pub key_value : List ℕ → ℕ
key_value subkey =
    bit_or
      (bit_or
        (bit_or
          (bit_or (bit_or (get_or subkey 0 0 * 2 ^ 40) (get_or subkey 1 0 * 2 ^ 32))
            (get_or subkey 2 0 * 2 ^ 24))
          (get_or subkey 3 0 * 2 ^ 16))
        (get_or subkey 4 0 * 2 ^ 8))
      (get_or subkey 5 0)

unfoldable pub feistel : ℕ → List ℕ → ℕ
feistel right subkey =
    let mixed = bit_xor (permute (word_be right) expansion) (key_value subkey) in
    permute (left_aligned (substitute mixed 42 substitution_boxes 0) 32) round_permutation % 2 ^ 32

-- The loop of `encrypt_block`, to the preoutput `R16 || L16`.
unfoldable pub rounds : (left right : ℕ) → List (List ℕ) → ℕ
rounds left right [] = bit_or (right * 2 ^ 32) left
rounds left right (subkey ∷ later) = rounds right (bit_xor left (feistel right subkey)) later

unfoldable pub encrypt_block : List (List ℕ) → List ℕ → List ℕ
encrypt_block schedule block =
    let permuted = permute block initial_permutation in
    u64_be (
      permute (u64_be (rounds (permuted / 2 ^ 32 % 2 ^ 32) (permuted % 2 ^ 32) schedule))
        final_permutation)

-- The loop of `encrypt_ecb` over the chunks of eight bytes; fewer at the end stay as they are.
unfoldable pub encrypt_chunks : List (List ℕ) → List ℕ → List ℕ
encrypt_chunks schedule (a ∷ b ∷ c ∷ d ∷ e ∷ f ∷ g ∷ h ∷ rest) =
    encrypt_block schedule (a ∷ b ∷ c ∷ d ∷ e ∷ f ∷ g ∷ h ∷ []) ++ encrypt_chunks schedule rest
encrypt_chunks schedule rest = rest

unfoldable pub encrypt_ecb : List ℕ → List ℕ → List ℕ
encrypt_ecb key bytes = encrypt_chunks (key_schedule key) bytes

unfoldable pub answer_challenge : List ℕ → List ℕ → List ℕ
answer_challenge password challenge = encrypt_ecb (vnc_key_from_password password) challenge
