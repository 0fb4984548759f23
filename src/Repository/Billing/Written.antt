-- ===== src/Repository/Billing/Written.antt =====
-- The newest event of a list, and what the statement on the subscription does to it.
use legacy_vault.Base.{
  ℕ, ◌≤◌, ◌≡◌, refl, sym, leb, true, false, Option, none, some, List, [], ◌∷◌, arith, Bool, ◌+◌,
  if◌then◌else◌, ◌⊎◌, not, ok, err, All, Any, here, there, string_eq, Bool-cases, inl, inr,
}
use mathlib.Core.Path.{subst}
use legacy_vault.Repository.Billing.{
  NormalizedBillingEvent, SubscriptionRow, OtherSubscriptions, is_elsewhere, subscription_row,
  upsert_subscription,
}

-- The row shows the event.
abbrev pub Shows : Option SubscriptionRow → NormalizedBillingEvent → Type 0
Shows none e = ⊥
Shows (some row) e =
    (row.content ≡ e.content) × (row.provider_updated_at ≡ some e.provider_created_at)

-- No other household has the event's provider ids.
abbrev pub fits : OtherSubscriptions → NormalizedBillingEvent → Bool
fits others e = not (is_elsewhere others e)

-- None of the fitting events is later than n.
NoneAfter : OtherSubscriptions → ℕ → List NormalizedBillingEvent → Type 0
NoneAfter others n es = All (λ f. fits others f ≡ true → f.provider_created_at ≤ n) es

-- A fitting event of the list that the row shows, and no fitting one of the list is newer.
pub record IsLatest (others : OtherSubscriptions) (es : List NormalizedBillingEvent)
    (row : Option SubscriptionRow) : Type 0 where
  pub event : NormalizedBillingEvent
  pub listed : Any (λ f. f ≡ event) es
  pub fitting : fits others event ≡ true
  pub shown : Shows row event
  pub newest :
      All (λ f. fits others f ≡ true → f.provider_created_at ≤ event.provider_created_at) es

-- Without a fitting event there is no subscription.
abbrev pub ShowsLatest :
    OtherSubscriptions → List NormalizedBillingEvent → Option SubscriptionRow → Type 0
ShowsLatest others es row =
    ((row ≡ none) × All (λ f. fits others f ≡ false) es) ⊎ IsLatest others es row

module _ (others : OtherSubscriptions) where
  NoneAfter-trans :
      (m n : ℕ) (es : List NormalizedBillingEvent)
      → m ≤ n
      → NoneAfter others m es
      → NoneAfter others n es
  unfolding NoneAfter
  NoneAfter-trans m n [] h k = tt
  NoneAfter-trans m n (e ∷ es) h (k, ks) =
      ((λ fit. let le = k fit in omega arith), NoneAfter-trans m n es h ks)

  unfit_after :
      (n : ℕ) (es : List NormalizedBillingEvent)
      → All (λ f. fits others f ≡ false) es
      → NoneAfter others n es
  unfolding NoneAfter
  unfit_after n [] h = tt
  unfit_after n (e ∷ es) (h, hs) = ((λ fit. absurd (ground arith)), unfit_after n es hs)

  -- The subscription after the statement, which a violation leaves.
  abbrev pub written : NormalizedBillingEvent → Option SubscriptionRow → Option SubscriptionRow
  written e row = elim (upsert_subscription others e row) [
    | ok (wrote, after) ↦ after
    | err error ↦ row
  ]

  written_first :
      (e : NormalizedBillingEvent)
      → written e none ≡ (if is_elsewhere others e then none else some (subscription_row e 1))
  unfolding upsert_subscription
  written_first e = ground arith

  written_kept :
      (e : NormalizedBillingEvent) (row : SubscriptionRow) {t : ℕ}
      → row.provider_updated_at ≡ some t
      → (leb t e.provider_created_at ≡ false) ⊎ (is_elsewhere others e ≡ true)
      → written e (some row) ≡ some row
  unfolding upsert_subscription
  written_kept e row time (inl older) = ground arith
  written_kept e row time (inr elsewhere) = ground arith

  written_new :
      (e : NormalizedBillingEvent) (row : SubscriptionRow) {t : ℕ}
      → row.provider_updated_at ≡ some t
      → leb t e.provider_created_at ≡ true
      → is_elsewhere others e ≡ false
      → written e (some row) ≡ some (subscription_row e (row.version + 1))
  unfolding upsert_subscription
  written_new e row time newer free = ground arith

  -- An event that is not newer, or does not fit, leaves the latest.
  IsLatest-kept :
      (e : NormalizedBillingEvent) (es : List NormalizedBillingEvent) (row : SubscriptionRow)
      (l : IsLatest others es (some row))
      → (e.provider_created_at ≤ l.event.provider_created_at) ⊎ (fits others e ≡ false)
      → IsLatest others (e ∷ es) (some row)
  IsLatest-kept e es row l (inl older) = record {
    event = l.event;
    listed = there l.listed;
    fitting = l.fitting;
    shown = l.shown;
    newest = ((λ fit. older), l.newest);
  }
  IsLatest-kept e es row l (inr unfit) = record {
    event = l.event;
    listed = there l.listed;
    fitting = l.fitting;
    shown = l.shown;
    newest = ((λ fit. absurd (ground arith)), l.newest);
  }

  pub written-ShowsLatest :
      (e : NormalizedBillingEvent) (es : List NormalizedBillingEvent) (row : Option SubscriptionRow)
      → ShowsLatest others es row
      → ShowsLatest others (e ∷ es) (written e row)
  unfolding upsert_subscription NoneAfter
  written-ShowsLatest e es none (inl (none_yet, unfit)) =
      elim (Bool-cases (is_elsewhere others e)) [
        | inl elsewhere ↦ rw (written_first e, elsewhere) (inl (refl, (ground arith, unfit)))
        | inr free ↦
            rw (written_first e, free)
              (inr (record {
                event = e;
                listed = here refl;
                fitting = ground arith;
                shown = (refl, refl);
                newest = ((λ fit. omega arith), unfit_after _ es unfit);
              }))
      ]
  written-ShowsLatest e es (some row) (inl (none_yet, unfit)) = absurd (ground arith)
  written-ShowsLatest e es none (inr l) = elim l.shown [ ]
  written-ShowsLatest e es (some row) (inr l) =
      let (content, time) = l.shown in
      let kept =
        λ (older : (e.provider_created_at ≤ l.event.provider_created_at) ⊎ (fits others e ≡ false)).
          IsLatest-kept e es row l older in
      elim (Bool-cases (leb l.event.provider_created_at e.provider_created_at)) [
        | inl newer ↦ elim (Bool-cases (is_elsewhere others e)) [
          | inl elsewhere ↦
              subst (ShowsLatest others (e ∷ es)) (sym (written_kept e row time (inr elsewhere)))
                (inr (kept (inr (ground arith))))
          | inr free ↦
              subst (ShowsLatest others (e ∷ es)) (sym (written_new e row time newer free)) (
                inr (record {
                  event = e;
                  listed = here refl;
                  fitting = ground arith;
                  shown = (refl, refl);
                  newest = ((λ fit. omega arith), NoneAfter-trans _ _ es (ground arith) l.newest);
                }))
        ]
        | inr older ↦
            subst (ShowsLatest others (e ∷ es)) (sym (written_kept e row time (inl older)))
              (inr (kept (inl (ground arith))))
      ]
