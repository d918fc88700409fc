-- ===== src/Scope/Laws.antt =====
-- What a scope of src/aiodrive/modules/scope.py takes back, alone and inside another one.
use aiodrive.Prelude.{
  ◌==◌, if◌then◌else◌, ℕ, zero, suc, ◌+◌, ◌-◌, ◌≡◌, refl, ap, ◌∙◌, Bool, true, false, not, List, [],
  ◌∷◌, arith,
}
use aiodrive.Asyncio.{cancelled_error, returned, raised}
use aiodrive.Scope.{Scoped, scope_cancel, enter_scope, uncancel_times, leave, take_back, use_scope}

-- A cancellation during the block: through the scope, or from elsewhere.
pub data Request : Type 0 where
  by_scope from_outside : Request

abbrev pub receive : Request → Scoped → Scoped
unfolding scope_cancel
receive by_scope s = (scope_cancel s).0
receive from_outside s = record s { requests = s.requests + 1 }

abbrev pub receive_all : List Request → Scoped → Scoped
receive_all [] s = s
receive_all (w ∷ ws) s = receive_all ws (receive w s)

abbrev pub is_by_scope : Request → Bool
is_by_scope by_scope = true
is_by_scope from_outside = false

abbrev pub count : (Request → Bool) → List Request → ℕ
count p [] = 0
count p (w ∷ ws) = (if p w then 1 else 0) + count p ws

pub uncancel_times_lem : (n r : ℕ) → uncancel_times n r ≡ r - n
uncancel_times_lem zero r = omega arith
uncancel_times_lem (suc n) r = omega (arith, uncancel_times_lem n (r - 1))

abbrev pub in_block : ℕ → ℕ → Scoped
in_block k requests = record {
  scope = record { cancellation_count = k; entered = true };
  requests = requests;
}

in_block_ap : {k k' r r' : ℕ} → k ≡ k' → r ≡ r' → in_block k r ≡ in_block k' r'
in_block_ap e e' = λ i. in_block (e i) (e' i)

receive_all-in_block :
    (ws : List Request) (k r : ℕ)
    → receive_all ws (in_block k r)
      ≡ in_block
          (k + count is_by_scope ws)
          (r + count is_by_scope ws + count (λ w. not (is_by_scope w)) ws)
unfolding scope_cancel
receive_all-in_block [] k r = in_block_ap (omega arith) (omega arith)
receive_all-in_block (by_scope ∷ ws) k r =
    receive_all-in_block ws (k + 1) (r + 1) ∙ in_block_ap (omega arith) (omega arith)
receive_all-in_block (from_outside ∷ ws) k r =
    receive_all-in_block ws k (r + 1) ∙ in_block_ap (omega arith) (omega arith)

abbrev pub from_elsewhere : List Request → ℕ
from_elsewhere = count (λ w. not (is_by_scope w))

take_back-in_block :
    (k n r : ℕ)
    → uncancel_times k r ≡ n
    → take_back (in_block k r)
      ≡ (if n == 0 then returned tt else raised cancelled_error, leave (in_block k n))
take_back-in_block k n r e =
    λ i. (if e i == 0 then returned tt else raised cancelled_error, leave (in_block k (e i)))

-- If the task had `r` requests on entering the scope and the block ends as cancelled after any
-- cancellations, through the scope and from elsewhere, in any order: exactly those through the
-- scope are taken back, and the error is swallowed exactly if no other request is left.
pub use_scope-cancelled :
    (r : ℕ) (ws : List Request)
    → use_scope (receive_all ws (enter_scope r)) (raised cancelled_error) ≡ (
      if r + from_elsewhere ws == 0 then returned tt else raised cancelled_error,
      leave (in_block (count is_by_scope ws) (r + from_elsewhere ws)),
    )
unfolding use_scope enter_scope scope_cancel
use_scope-cancelled r ws =
    ap take_back (receive_all-in_block ws 0 r)
    ∙ ap take_back (in_block_ap (omega arith) refl)
    ∙ take_back-in_block (count is_by_scope ws) (r + from_elsewhere ws)
        (r + count is_by_scope ws + from_elsewhere ws)
        (uncancel_times_lem (count is_by_scope ws) (r + count is_by_scope ws + from_elsewhere ws)
          ∙ omega arith)
