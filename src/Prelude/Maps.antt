-- ===== src/Prelude/Maps.antt =====
-- std::unordered_map as an association list over keys with a Boolean equality.
use mathlib.Core.Path.{◌≡◌, refl, ap}
use mathlib.Core.Logic.{◌↔◌, ◌≢◌}
use mathlib.Core.Bool.{Bool, true}
use mathlib.Core.List.{List, [], ◌∷◌, map, Perm}
use mathlib.Core.List.Perm
use mathlib.Core.Option.{Option, none, some}
use mathlib.Core.Logic.{inl, inr}
use native.Mathlib.Omega.{arith}
use Prim.Native.Nat.{ℕ}
use quantforge_engine.Prelude.Tests.{if◌then◌else◌, Bool-cases, ==_iff}
use quantforge_engine.Prelude.Tests.{◌==◌ as nat_beq}

pub record Eq {ℓ} (A : Type ℓ) : Type ℓ where
  pub beq : A → A → Bool
  pub beq_iff : (a b : A) → (beq a b ≡ true) ↔ (a ≡ b)

instance abbrev pub nat_eq : Eq ℕ
nat_eq = record { beq = nat_beq; beq_iff = ==_iff }

pub beq_self {ℓ} : {K : Type ℓ} ⦃e : Eq K⦄ (k : K) → e.beq k k ≡ true
beq_self ⦃e⦄ k = (e.beq_iff k k).1 refl

module _ {ℓ κ} {K : Type ℓ} {V : Type κ} ⦃e : Eq K⦄ where
  -- `find`, with `none` for `end()`.
  abbrev pub lookup : K → List (K × V) → Option V
  lookup k [] = none
  lookup k ((j, v) ∷ m) = if e.beq j k then some v else lookup k m

  -- `m[k] = v`.
  abbrev pub insert : K → V → List (K × V) → List (K × V)
  insert k v [] = (k, v) ∷ []
  insert k v ((j, w) ∷ m) = if e.beq j k then (k, v) ∷ m else (j, w) ∷ insert k v m

  -- `m.erase(k)`.
  abbrev pub erase : K → List (K × V) → List (K × V)
  erase k [] = []
  erase k ((j, w) ∷ m) = if e.beq j k then m else (j, w) ∷ erase k m

  abbrev pub values : List (K × V) → List V
  values = map (λ p. p.1)

  pub lookup-insert :
      (k j : K) (v : V) (m : List (K × V))
      → lookup j (insert k v m) ≡ (if e.beq k j then some v else lookup j m)
  lookup-insert k j v [] = refl
  lookup-insert k j v ((i, w) ∷ m) =
      ground (arith, e.beq_iff k j, e.beq_iff i k, e.beq_iff i j, lookup-insert k j v m)

  pub lookup-insert_self : (k : K) (v : V) (m : List (K × V)) → lookup k (insert k v m) ≡ some v
  lookup-insert_self k v m = rw (lookup-insert k k v m, beq_self k)

  pub lookup-insert_ne :
      (k j : K) (v : V) (m : List (K × V)) → k ≢ j → lookup j (insert k v m) ≡ lookup j m
  lookup-insert_ne k j v m h = ground (arith, lookup-insert k j v m, e.beq_iff k j)

  -- A new key adds its value.
  pub values-insert-perm :
      (k : K) (v : V) (m : List (K × V))
      → lookup k m ≡ none
      → Perm (values (insert k v m)) (v ∷ values m)
  values-insert-perm k v [] h = Perm.refl _
  values-insert-perm k v ((j, w) ∷ m) h = elim (Bool-cases (e.beq j k)) [
    | inl hit ↦ absurd (ground arith)
    | inr miss ↦
        rw miss
          (Perm.trans (Perm.cons w (values-insert-perm k v m (ground arith))) (Perm.swap v w _))
  ]

  -- Erasing a key takes its value out.
  pub values-erase-perm :
      (k : K) (v : V) (m : List (K × V))
      → lookup k m ≡ some v
      → Perm (values m) (v ∷ values (erase k m))
  values-erase-perm k v [] h = absurd (cc)
  values-erase-perm k v ((j, w) ∷ m) h = elim (Bool-cases (e.beq j k)) [
    | inl hit ↦ rw hit (Perm.cons' (ground arith) (Perm.refl _))
    | inr miss ↦
        rw miss
          (Perm.trans (Perm.cons w (values-erase-perm k v m (ground arith))) (Perm.swap v w _))
  ]

  -- A new key can be taken out again.
  pub erase-insert :
      (k : K) (v : V) (m : List (K × V)) → lookup k m ≡ none → erase k (insert k v m) ≡ m
  erase-insert k v [] h = rw (beq_self k)
  erase-insert k v ((j, w) ∷ m) h = elim (Bool-cases (e.beq j k)) [
    | inl hit ↦ absurd (ground arith)
    | inr miss ↦ rw (miss, miss) (ap (λ r. (j, w) ∷ r) (erase-insert k v m (ground arith)))
  ]
