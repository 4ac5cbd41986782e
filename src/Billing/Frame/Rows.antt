-- ===== src/Billing/Frame/Rows.antt =====
-- The rows of owners under the writes of `Store`.
use codecov_api.Base.{
  All, All-select, Bool, Bool-cases, List, [], arith, inl, inr, is_some, mem, refl, select, subst,
  true, ℕ, ◌==◌, ◌∙◌, ◌∷◌, ◌≡◌,
}
use codecov_api.Owner.{Owner}
use codecov_api.Store.{World, get_owner, ok, one, put_owner, update_rows}
use codecov_api.Plan.Service.{find_plan}
use codecov_api.Seats.Count.{keys}
use codecov_api.Billing.Webhooks.{set_delinquent}

abbrev pub IsSupported : Owner → Type 0
IsSupported o = is_some (find_plan o.plan) ≡ true

-- One of the owners `ks`, on a known plan.
abbrev pub Fits : List ℕ → Owner → Type 0
Fits ks o = (mem o.ownerid ks ≡ true) × IsSupported o

abbrev pub Inv : List ℕ → List Owner → Type 0
Inv ks rows = (keys rows ≡ ks) × All (Fits ks) rows

pub Inv-init :
    (rows : List Owner) (ks : List ℕ)
    → ((i : ℕ) → mem i (keys rows) ≡ true → mem i ks ≡ true)
    → All IsSupported rows
    → All (Fits ks) rows
Inv-init [] ks sub h = tt
Inv-init (o ∷ rows) ks sub h =
    ((sub o.ownerid (ground arith), h.0), Inv-init rows ks (λ i m. sub i (ground arith)) h.1)

pub All-Fits-IsSupported :
    (ks : List ℕ) (rows : List Owner) → All (Fits ks) rows → All IsSupported rows
All-Fits-IsSupported ks [] h = tt
All-Fits-IsSupported ks (o ∷ rows) h = (h.0.1, All-Fits-IsSupported ks rows h.1)

keys-put_owner :
    (o : Owner) (rows : List Owner)
    → mem o.ownerid (keys rows) ≡ true
    → keys (put_owner o rows) ≡ keys rows
unfolding put_owner
keys-put_owner o [] h = cc
keys-put_owner o (r ∷ rows) h = ground (arith, keys-put_owner o rows)

All-put_owner {ℓ} :
    (P : Owner → Type ℓ) (o : Owner) (rows : List Owner)
    → P o
    → All P rows
    → All P (put_owner o rows)
unfolding put_owner
All-put_owner P o [] p h = (p, tt)
All-put_owner P o (r ∷ rows) p h = elim (Bool-cases (r.ownerid == o.ownerid)) [
  | inl e ↦ rw e (p, h.1)
  | inr e ↦ rw e (h.0, All-put_owner P o rows p h.1)
]

pub Inv-put_owner :
    (ks : List ℕ) (o : Owner) (rows : List Owner)
    → Fits ks o
    → Inv ks rows
    → Inv ks (put_owner o rows)
Inv-put_owner ks o rows f h =
    (keys-put_owner o rows (ground arith) ∙ h.0, All-put_owner (Fits ks) o rows f h.1)

one-All {ℓ} : {A : Type 0} (P : A → Type ℓ) (xs : List A) (a : A) → All P xs → one xs ≡ ok a → P a
one-All P [] a h e = absurd (ground arith)
one-All P (x ∷ []) a h e = subst P (ground arith) h.0
one-All P (x ∷ y ∷ xs) a h e = absurd (ground arith)

-- The row that a query finds is one of the rows.
pub get_owner-Fits :
    (ks : List ℕ) (p : Owner → Bool) (w : World) (o : Owner)
    → Inv ks w.owners
    → (get_owner p w).0 ≡ ok o
    → Fits ks o
unfolding get_owner
get_owner-Fits ks p w o h e =
    one-All (Fits ks) (select p w.owners) o (All-select (Fits ks) p w.owners h.1) e

keys-update_rows :
    (p : Owner → Bool) (rows : List Owner) → keys (update_rows p set_delinquent rows) ≡ keys rows
unfolding update_rows
keys-update_rows p [] = refl
keys-update_rows p (o ∷ rows) = ground (arith, keys-update_rows p rows)

Fits-update_rows :
    (ks : List ℕ) (p : Owner → Bool) (rows : List Owner)
    → All (Fits ks) rows
    → All (Fits ks) (update_rows p set_delinquent rows)
unfolding update_rows
Fits-update_rows ks p [] h = tt
Fits-update_rows ks p (o ∷ rows) h = elim (Bool-cases (p o)) [
  | inl e ↦ rw e (h.0, Fits-update_rows ks p rows h.1)
  | inr e ↦ rw e (h.0, Fits-update_rows ks p rows h.1)
]

pub Inv-update_rows :
    (ks : List ℕ) (p : Owner → Bool) (rows : List Owner)
    → Inv ks rows
    → Inv ks (update_rows p set_delinquent rows)
Inv-update_rows ks p rows h = (keys-update_rows p rows ∙ h.0, Fits-update_rows ks p rows h.1)
