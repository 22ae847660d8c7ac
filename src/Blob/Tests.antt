-- ===== src/Blob/Tests.antt =====
-- Keys of the blob store, runs of both stores, and instances of the theorems about them.
use imapped.Base.{
  ℕ, zero, suc, ◌%◌, ◌≡◌, refl, true, none, some, List, [], ◌∷◌, arith, length, drop, All,
}
use imapped.Base.Int64
use imapped.Base.Text
use imapped.Base.Text.{Text, codes}
use imapped.Upstream.Errors.{ok, err}
use imapped.Blob.Keys.{
  IsByte, rfc822, mime_part, hex_encode, hex_digit, hex_value, hex_decode, cut_slash, valid_type,
  valid_key, new_key, key_type, key_digest, new_key-reads,
}
use imapped.Blob.Memory
use imapped.Blob.Memory.{not_found}
use imapped.Blob.Files.{Os}
use imapped.Blob.Files.Simulates.{
  Request, puts, gets, gets_range, removes, IsProper, read, removed, memory_answers, file_answers,
  file_answers-simulate,
}

abbrev zeros : ℕ → List ℕ
zeros zero = []
zeros (suc n) = 0 ∷ zeros n

zeros_are_bytes : (n : ℕ) → All IsByte (zeros n)
zeros_are_bytes zero = tt
zeros_are_bytes (suc n) = (omega arith, zeros_are_bytes n)

-- A hash of 32 bytes that tells lengths apart.
abbrev hash : List ℕ → List ℕ
hash d = (length d % 256) ∷ zeros 31

hash_bytes : (d : List ℕ) → All IsByte (hash d) × (length (hash d) ≡ 32)
hash_bytes d = ((omega arith, zeros_are_bytes 31), refl)

abbrev calm : Os Unit
calm = record { os_err = λ c w. (none, w) }

abbrev body : List ℕ
body = 72 ∷ 105 ∷ 33 ∷ []

abbrev key : Text
key = new_key rfc822 (hash body)

short_key : new_key mime_part (10 ∷ 255 ∷ []) ≡ codes "mime_part/0aff"
unfolding new_key hex_encode
short_key = refl

new_key-reads_example : (key_type key ≡ rfc822) × (key_digest key ≡ some (hash body))
unfolding valid_type Text.same
new_key-reads_example = new_key-reads rfc822 (hash body) refl (hash_bytes body).0

abbrev requests : List Request
requests = puts rfc822 body ∷ gets key ∷ gets_range key 1 9 ∷ removes key ∷ gets key ∷ []

key_is_valid : valid_key key ≡ true
unfolding valid_key valid_type Text.same key_type key_digest new_key hex_encode hex_decode hex_digit
    hex_value cut_slash
key_is_valid = refl

proper : All IsProper requests
unfolding valid_type Text.same
proper = (
  (refl, omega arith),
  (key_is_valid, ((key_is_valid, omega arith), (key_is_valid, (key_is_valid, tt)))),
)

file_answers-simulate_example :
    file_answers hash none calm requests [] tt ≡ memory_answers hash none requests []
file_answers-simulate_example =
    file_answers-simulate calm hash none requests tt (λ c w. refl) hash_bytes proper

-- The object is there until it is removed.
comes_and_goes :
    drop 1 (memory_answers hash none requests [])
    ≡ read (ok body) ∷ read (ok (105 ∷ 33 ∷ [])) ∷ removed none ∷ read (err (not_found key)) ∷ []
unfolding memory_answers Memory.put Memory.get Memory.get_range Memory.remove Memory.lookup
    valid_type Text.same new_key hex_encode Int64.lt
comes_and_goes = refl
