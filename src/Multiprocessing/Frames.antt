-- ===== src/Multiprocessing/Frames.antt =====
-- The frames of `Connection` in src/aiodrive/modules/multiprocessing.py.
use aiodrive.Prelude.{
  length, all, ℕ, ◌/◌, ◌%◌, ◌≤◌, ◌<◌, min, ◌≡◌, refl, ap, ◌∙◌, List, [], ◌∷◌, ◌++◌, arith,
}
use aiodrive.Asyncio.{returned}
use aiodrive.Multiprocessing.{to_bytes, from_bytes_onto, take, drop, send, read, recv_rest, recv}

take-append : (xs ys : List ℕ) → take (length xs) (xs ++ ys) ≡ xs
take-append [] ys = refl
take-append (x ∷ xs) ys = ap (λ zs. x ∷ zs) (take-append xs ys)

drop-append : (xs ys : List ℕ) → drop (length xs) (xs ++ ys) ≡ ys
drop-append [] ys = refl
drop-append (x ∷ xs) ys = drop-append xs ys

read_all :
    (bytes rest : List ℕ) (n arrived : ℕ)
    → n ≡ length bytes
    → n ≤ arrived
    → read n arrived (bytes ++ rest) ≡ (bytes, rest)
read_all bytes rest n arrived e h =
    let m : min n arrived ≡ length bytes = omega arith in
    ap (λ k. (take k (bytes ++ rest), drop k (bytes ++ rest))) m
    ∙ (λ i. (take-append bytes rest i, drop-append bytes rest i))

digits :
    (size : ℕ)
    → size < 4294967296
    → from_bytes_onto 0 (size / 16777216 ∷ size / 65536 % 256 ∷ size / 256 % 256 ∷ size % 256 ∷ [])
      ≡ size
digits size h = omega arith

abbrev pub frame : List ℕ → List ℕ
frame bytes =
    length bytes / 16777216
    ∷ length bytes / 65536 % 256
    ∷ length bytes / 256 % 256
    ∷ length bytes % 256
    ∷ bytes

header_read :
    (bytes rest : List ℕ) (arrived arrived' : ℕ)
    → length bytes < 4294967296
    → 4 ≤ arrived
    → recv arrived arrived' (frame bytes ++ rest)
      ≡ returned (read (length bytes) arrived' (bytes ++ rest))
unfolding recv
header_read bytes rest arrived arrived' h four =
    let m : min 4 arrived ≡ 4 = omega arith in
    ap (λ k. recv_rest arrived' (take k (frame bytes ++ rest), drop k (frame bytes ++ rest))) m
    ∙ ap (λ n. returned (read n arrived' (bytes ++ rest))) (digits (length bytes) h)

-- Any bytes fewer than 2 ^ 32 are sent, and if the four bytes of the length have arrived at the
-- first `read` and all the others at the second, `recv` gives exactly these bytes and leaves what
-- follows them.
pub recv-send :
    (bytes rest : List ℕ) (arrived arrived' : ℕ)
    → length bytes < 4294967296
    → 4 ≤ arrived
    → length bytes ≤ arrived'
    → (send bytes ≡ returned (frame bytes))
      × (recv arrived arrived' (frame bytes ++ rest) ≡ returned (bytes, rest))
unfolding send to_bytes recv
recv-send bytes rest arrived arrived' h four all = (
  ground arith,
  header_read bytes rest arrived arrived' h four
      ∙ ap returned (read_all bytes rest (length bytes) arrived' refl all),
)

-- `read` gives what has arrived: if the length has arrived, but only some of the bytes, `recv`
-- passes on only those, and leaves the others as if they were the next frame.
pub recv-short :
    (bytes rest : List ℕ) (arrived arrived' : ℕ)
    → length bytes < 4294967296
    → 4 ≤ arrived
    → arrived' < length bytes
    → recv arrived arrived' (frame bytes ++ rest)
      ≡ returned (take arrived' (bytes ++ rest), drop arrived' (bytes ++ rest))
recv-short bytes rest arrived arrived' h four few =
    let m : min (length bytes) arrived' ≡ arrived' = omega arith in
    header_read bytes rest arrived arrived' h four
    ∙ ap (λ k. returned (take k (bytes ++ rest), drop k (bytes ++ rest))) m
