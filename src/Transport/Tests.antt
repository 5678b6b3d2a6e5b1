-- ===== src/Transport/Tests.antt =====
-- A connection whose second write is dropped, and the theorem about it.
use rust_desk_enhanced.Prelude.{
  ℕ, Option, some, List, [], ◌∷◌, length, replicate, ◌≡◌, refl, sym, arith,
}
use rust_desk_enhanced.Cipher.{new, Encrypt, enc}
use rust_desk_enhanced.Cipher.Toy.{toy_sodium}
use rust_desk_enhanced.Transport.{
  Protobuf, split, Fate, flushes, dropped, deliver, cancel, seal, send_bytes, send, sends, receives,
}
use rust_desk_enhanced.Transport.Delivery.{arrivals, faces, receives-sends}

same_length : (m bytes : List ℕ) → some m ≡ some bytes → length bytes ≡ length m
same_length m bytes e = ground (arith, e)

-- Messages that are their bytes.
abbrev raw_bytes : Protobuf (List ℕ)
raw_bytes = record {
  compute_size = length;
  write_to_bytes = some;
  parse_from_bytes = some;
  parse-write = λ m bytes e. sym e;
  length-write = same_length;
}

abbrev calls : List (List ℕ × Fate)
calls = (1 ∷ [], flushes) ∷ (2 ∷ [], dropped 3) ∷ (3 ∷ [], flushes) ∷ []

abbrev key : Option Encrypt
key = some (new (replicate 32 8))

first_only : (sends toy_sodium raw_bytes (split [] key 0) calls).0 ≡ (1 ∷ []) ∷ []
unfolding split sends send send_bytes seal enc deliver cancel
first_only = refl

receives-sends_example :
    receives toy_sodium raw_bytes
      (length (arrivals (sends toy_sodium raw_bytes (split [] key 0) calls).1))
      (split (arrivals (sends toy_sodium raw_bytes (split [] key 0) calls).1) (faces 5 key) 30)
    ≡ (sends toy_sodium raw_bytes (split [] key 0) calls).0
receives-sends_example = receives-sends toy_sodium raw_bytes key 0 30 5 [] calls
