-- ===== src/Storage/Monad.antt =====
-- A method of a storage component: it reads and writes the backend and returns a Result. What was
-- written before an error stays written.
use call_node.Prelude.{◌≡◌, ℕ, Bool, Option, none, some, Result, ok, err, if◌then◌else◌}
use call_node.Storage.Slots.{Slot, Storage, load, store}

abbrev pub M : Type 0 → Type 0 → Type 0
M E A = Storage → Result E A × Storage

module _ {E A : Type 0} where
  abbrev pub return : A → M E A
  return a st = (ok a, st)

  abbrev pub throw : E → M E A
  throw e st = (err e, st)

  abbrev pub gets : (Storage → A) → M E A
  gets f st = (ok (f st), st)

  -- `.ok_or(e)?`
  abbrev pub ok_or : Option A → E → M E A
  ok_or none e = throw e
  ok_or (some a) _ = return a

infixl 5 ◌>>=◌ ◌>>◌
abbrev pub ◌>>=◌ : {E A B : Type 0} → M E A → (A → M E B) → M E B
◌>>=◌ m f st = let (r, st') = m st in elim r [ ok a ↦ f a st' | err e ↦ throw e st' ]

abbrev pub ◌>>◌ : {E A B : Type 0} → M E A → M E B → M E B
m >> k = m >>= λ _. k

-- `if cond { return Err(e); }`
abbrev pub throw_if : {E : Type 0} → Bool → E → M E (Unit {0})
throw_if c e st = (if c then err e else ok tt, st)

-- `if let Some(e) = found { return Err(e); }`
abbrev pub throw_found : {E : Type 0} → Option E → M E (Unit {0})
throw_found none = return tt
throw_found (some e) = throw e

abbrev pub read : {E : Type 0} → Slot → M E ℕ
read p = gets (load p)

abbrev pub write : {E : Type 0} → Slot → ℕ → M E (Unit {0})
write p v st = (ok tt, store p v st)

-- `.map_err(|_| e)`
abbrev pub map_err : {E F A : Type 0} → M E A → F → M F A
map_err m f st = let (r, st') = m st in elim r [ ok a ↦ return a st' | err _ ↦ throw f st' ]

-- A call that failed and left the storage as it was.
abbrev pub IsRefused : {E A : Type 0} → Storage → Result E A × Storage → Type 0
IsRefused st (ok _, st') = ⊥
IsRefused st (err _, st') = st' ≡ st
