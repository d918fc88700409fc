-- ===== src/NestableLock/Exclusion.antt =====
-- One context at a time is inside a lock of src/aiodrive/modules/nestable_lock.py.
use aiodrive.Prelude.{
  ◌==◌, if◌then◌else◌, update, ℕ, ◌+◌, ◌<◌, ◌≡◌, subst, true, false, some, arith,
}
use aiodrive.NestableLock.{NestableLock, new_nestable, aenter, aexit}

-- Contexts enter, and leave as often as they have entered.
pub data Reach : NestableLock → Type 0 where
  here : Reach new_nestable
  enters :
      {l : NestableLock} (c : ℕ) (l' : NestableLock) → Reach l → aenter c l ≡ some l' → Reach l'
  leaves : {l : NestableLock} (c : ℕ) → Reach l → 0 < l.context_var c → Reach (aexit c l)

pub record Inv (l : NestableLock) : Type 0 where
  pub alone : (a b : ℕ) → 0 < l.context_var a → 0 < l.context_var b → a ≡ b
  pub held : (a : ℕ) → 0 < l.context_var a → l.lock ≡ true

abbrev entered : ℕ → NestableLock → NestableLock
entered c l = record {
  context_var = update l.context_var c (l.context_var c + 1);
  lock = if l.context_var c == 0 then true else l.lock;
}

aenter-entered :
    (c : ℕ) (l l' : NestableLock)
    → aenter c l ≡ some l'
    → (entered c l ≡ l') × ((l.context_var c ≡ 0) → l.lock ≡ false)
unfolding aenter
aenter-entered c l l' e = (ground arith, ground arith)

entered-Inv :
    (c : ℕ) (l : NestableLock) → (l.context_var c ≡ 0 → l.lock ≡ false) → Inv l → Inv (entered c l)
entered-Inv c l f v = record {
  alone = λ a b p q. ground (arith, f, v.alone a b, v.held a, v.held b, v.alone a c, v.alone c b);
  held = λ a p. ground (arith, f, v.held a, v.held c);
}

aenter-Inv : (c : ℕ) (l l' : NestableLock) → aenter c l ≡ some l' → Inv l → Inv l'
aenter-Inv c l l' e v =
    let (same, f) = aenter-entered c l l' e in subst Inv same (entered-Inv c l f v)

aexit-Inv : (c : ℕ) (l : NestableLock) → 0 < l.context_var c → Inv l → Inv (aexit c l)
unfolding aexit
aexit-Inv c l h v = record {
  alone = λ a b p q. ground (arith, v.alone a b);
  held = λ a p. ground (arith, v.held a, v.alone a c);
}

pub Reach-Inv : {l : NestableLock} → Reach l → Inv l
unfolding new_nestable
Reach-Inv here = record {
  alone = λ a b p q. absurd (omega arith);
  held = λ a p. absurd (omega arith);
}
Reach-Inv (enters {l} c l' p e) = aenter-Inv c l l' e (Reach-Inv p)
Reach-Inv (leaves {l} c p h) = aexit-Inv c l h (Reach-Inv p)

-- If contexts are not copied while they are inside: whatever contexts enter and leave, nested as
-- deep as they like, two that are inside are the same, and the one inside can enter again without
-- waiting.
pub Reach-alone :
    {l : NestableLock}
    → Reach l
    → (a b : ℕ) → 0 < l.context_var a
    → 0 < l.context_var b
    → (a ≡ b)
      × (aenter a l
          ≡ some (record l { context_var = update l.context_var a (l.context_var a + 1) }))
unfolding aenter
Reach-alone p a b h h' = ((Reach-Inv p).alone a b h h', ground arith)
