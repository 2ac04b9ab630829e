-- ===== src/Storage/Framing.antt =====
-- What a call leaves in a slot that it does not write, one rule for each way to build a call.
use call_node.Prelude.{
  ℕ, ◌≡◌, refl, sym, ap, inl, inr, Bool-cases, ◌∙◌, Bool, true, false, Option, none, some, Result,
  ok, err, if◌then◌else◌,
}
use mathlib.Core.Bool.{false≢true}
use call_node.Storage.Slots.{Slot, Storage, slot_eq}
use call_node.Storage.Identity.{slot_eq_sound}
use call_node.Storage.Monad.{
  M, return, throw, gets, ok_or, ◌>>=◌, ◌>>◌, throw_if, throw_found, read, write, map_err,
}

-- The call leaves the slot as it was, whether it succeeds or fails.
pub record Keeps {E A : Type 0} (p : Slot) (m : M E A) : Type 0 where
  pub at : (st : Storage) → (m st).1 p ≡ st p

module _ {E : Type 0} {p : Slot} where
  pub Keeps-return : {A : Type 0} (a : A) → Keeps {E = E} p (return a)
  Keeps-return a = record { at = λ st. refl }

  pub Keeps-throw : {A : Type 0} (e : E) → Keeps {A = A} p (throw e)
  Keeps-throw e = record { at = λ st. refl }

  pub Keeps-gets : {A : Type 0} (f : Storage → A) → Keeps {E = E} p (gets f)
  Keeps-gets f = record { at = λ st. refl }

  pub Keeps-read : (q : Slot) → Keeps {E = E} p (read q)
  Keeps-read q = record { at = λ st. refl }

  pub Keeps-ok_or : {A : Type 0} (o : Option A) (e : E) → Keeps p (ok_or o e)
  Keeps-ok_or none e = record { at = λ st. refl }
  Keeps-ok_or (some a) e = record { at = λ st. refl }

  pub Keeps-throw_if : (c : Bool) (e : E) → Keeps p (throw_if c e)
  Keeps-throw_if c e = record { at = λ st. refl }

  pub Keeps-throw_found : (o : Option E) → Keeps p (throw_found o)
  Keeps-throw_found none = record { at = λ st. refl }
  Keeps-throw_found (some e) = record { at = λ st. refl }

  -- A slot of a class keeps its word when a slot outside of the class is written.
  pub Keeps-write :
      (class : Slot → Bool) (q : Slot) (v : ℕ)
      → class p ≡ true
      → class q ≡ false
      → Keeps {E = E} p (write q v)
  Keeps-write class q v h k = record {
    at = λ st. elim (Bool-cases (slot_eq p q)) [
      | inl same ↦ absurd (false≢true (sym k ∙ ap class (sym (slot_eq_sound p q same)) ∙ h))
      | inr differ ↦ rw differ refl
    ];
  }

  pub Keeps-if :
      {A : Type 0} (c : Bool) (m n : M E A) → Keeps p m → Keeps p n → Keeps p (if c then m else n)
  Keeps-if true m n k l = k
  Keeps-if false m n k l = l

  bind_step :
      {A B : Type 0} (st : Storage) (f : A → M E B) (r : Result E A) (st' : Storage)
      → ((a : A) → Keeps p (f a))
      → st' p ≡ st p
      → (let out : Result E B × Storage = elim r [ ok a ↦ f a st' | err e ↦ throw e st' ] in
          out.1 p ≡ st p)
  bind_step st f (ok a) st' l e = (l a).at st' ∙ e
  bind_step st f (err x) st' l e = e

  pub Keeps-bind :
      {A B : Type 0} (m : M E A) (f : A → M E B)
      → Keeps p m
      → ((a : A) → Keeps p (f a))
      → Keeps p (m >>= f)
  Keeps-bind m f k l = record { at = λ st. bind_step st f (m st).0 (m st).1 l (k.at st) }

  map_err_step :
      {A F : Type 0} (st : Storage) (r : Result F A) (e : E) (st' : Storage)
      → st' p ≡ st p
      → (let out : Result E A × Storage = elim r [ ok a ↦ return a st' | err _ ↦ throw e st' ] in
          out.1 p ≡ st p)
  map_err_step st (ok a) e st' h = h
  map_err_step st (err x) e st' h = h

  pub Keeps-map_err : {A F : Type 0} (m : M F A) (e : E) → Keeps p m → Keeps p (map_err m e)
  Keeps-map_err m e k = record { at = λ st. map_err_step st (m st).0 e (m st).1 (k.at st) }

  pub Keeps-then : {A B : Type 0} (m : M E A) (n : M E B) → Keeps p m → Keeps p n → Keeps p (m >> n)
  Keeps-then m n k l = Keeps-bind m (λ _. n) k (λ _. l)

pub ruleset keeps_rules = (
  Keeps-return, Keeps-throw, Keeps-gets, Keeps-read, Keeps-ok_or, Keeps-throw_if, Keeps-write,
  Keeps-if, Keeps-bind, Keeps-map_err, Keeps-then,
)
