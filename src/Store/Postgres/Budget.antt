-- ===== src/Store/Postgres/Budget.antt =====
-- The quota of the Postgres store: the transaction of `AddQuota` and its limit.
use pf_media.Base.{
  Str, ℕ, ◌≡◌, refl, true, false, ◌&&◌, not, none, some, List, [], ◌∷◌, arith, str_eq, ◌==◌,
  if◌then◌else◌, All, any, keep, Option-cases, inl, inr,
}
use pf_media.Base.Int.{ℤ, pos, ◌≤ℤ◌, ltb_ℤ, ◌+ℤ◌, +ℤ_parts, add64, wrap64_lem}
use pf_media.Exec.{◌>>◌, pure}
use pf_media.Exec.Keeps.{Keeps}
use pf_media.Store.Memory.Budget.{Within}
use pf_media.Store.Postgres.Rows.{QuotaRow, Tables, first, update_where}
use pf_media.Store.Postgres.Statements.{same_quota, is_bigint, ensure_quota, change_quota}
use pf_media.Store.Postgres.Pool.{Backend, Db, query}
use pf_media.Store.Postgres.Files.{charge, add_quota}
use pf_media.Store.Postgres.Changing.{
  All-both, Distinct, All-weaken, All-of_any, All-append, All-update_where, Distinct-append,
  Distinct-update_where,
}
use pf_media.Store.Postgres.Keeping.{
  >>-pure, run_at, Post, post_at, Post-if, Keeps-bind_state, unless_at, Stable, Of, query-Keeps,
  query-ok, transaction-Keeps,
}

-- Each subject has one row at most, and its use is between 0 and the limit.
pub record InBudget (limit : ℤ) (t : Tables) : Type 0 where
  pub within : All (λ q. Within limit q.used_bytes) t.user_quota
  pub once : Distinct same_quota t.user_quota

-- The rows of the subject have this use.
abbrev Agrees : Str → ℤ → List QuotaRow → Type 0
Agrees subject used rows = All (λ q. (q.owner_sub == subject) ≡ true → q.used_bytes ≡ used) rows

Agrees-of_other :
    (subject : Str) (used : ℤ) (q : QuotaRow) (rows : List QuotaRow)
    → (q.owner_sub == subject) ≡ true
    → All (λ r. same_quota q r ≡ false) rows
    → Agrees subject used rows
Agrees-of_other subject used q rows mine other =
    All-weaken (λ r. same_quota q r ≡ false) _ rows (λ r e e'. ground arith) other

first-Agrees :
    (subject : Str) (q : QuotaRow) (rows : List QuotaRow)
    → Distinct same_quota rows
    → first (keep (λ (r : QuotaRow). r.owner_sub == subject) rows) ≡ some q
    → Agrees subject q.used_bytes rows
unfolding first keep
first-Agrees subject q [] d e = tt
first-Agrees subject q (r ∷ rows) (other, d) e =
    ground (arith, first-Agrees subject q rows d, Agrees-of_other subject q.used_bytes r rows)

none-Agrees :
    (subject : Str) (used : ℤ) (rows : List QuotaRow)
    → first (keep (λ (r : QuotaRow). r.owner_sub == subject) rows) ≡ none
    → Agrees subject used rows × any (λ r. r.owner_sub == subject) rows ≡ false
unfolding first keep any
none-Agrees subject used [] e = (tt, refl)
none-Agrees subject used (r ∷ rows) e = ground (arith, none-Agrees subject used rows)

-- After the INSERT the use that it returned is that of the subject's row.
record Read (limit : ℤ) (subject : Str) (used : ℤ) (t : Tables) : Type 0 where
  budget : InBudget limit t
  agrees : Agrees subject used t.user_quota

pub bigint-add64 :
    (used delta : ℤ) → is_bigint (used +ℤ delta) ≡ true → add64 used delta ≡ used +ℤ delta
unfolding add64
bigint-add64 used delta fits = wrap64_lem (used +ℤ delta) (ground arith)

module _ (limit : ℤ) (nonneg : pos 0 ≤ℤ limit) (subject : Str) where
  ensure_quota-Read :
      (t : Tables) → InBudget limit t → Post (Read limit subject) (ensure_quota subject t)
  unfolding ensure_quota
  ensure_quota-Read t b =
      let zero_row : QuotaRow = record { owner_sub = subject; used_bytes = pos 0 } in
      elim (Option-cases (first (keep (λ (q : QuotaRow). q.owner_sub == subject) t.user_quota))) [
        | inl n ↦
            let (a, free) = none-Agrees subject (pos 0) t.user_quota n in
            rw (n, Post)
              record {
                budget = record {
                  within = All-append _ t.user_quota zero_row b.within (omega arith, nonneg);
                  once = Distinct-append same_quota t.user_quota zero_row free b.once;
                };
                agrees = All-append _ t.user_quota zero_row a (λ _. refl);
              }
        | inr (q, n) ↦
            rw (n, Post)
              record { budget = b; agrees = first-Agrees subject q t.user_quota b.once n }
      ]

  -- What the test lets through stays in the bounds: a sum that wraps is none that fits the column.
  changed-Within :
      (used delta : ℤ)
      → Within limit used
      → (ltb_ℤ (pos 0) delta && ltb_ℤ limit (add64 used delta)) ≡ false
      → is_bigint (used +ℤ delta) ≡ true
      → Within limit (if ltb_ℤ (used +ℤ delta) (pos 0) then pos 0 else used +ℤ delta)
  changed-Within used delta w test fits =
      let sum = bigint-add64 used delta fits in let parts = +ℤ_parts used delta in ground arith

  change_quota-InBudget :
      (t : Tables) (used delta : ℤ)
      → Read limit subject used t
      → (ltb_ℤ (pos 0) delta && ltb_ℤ limit (add64 used delta)) ≡ false
      → Post (λ _ t'. InBudget limit t') (change_quota subject delta t)
  unfolding change_quota
  change_quota-InBudget t used delta r test =
      let mine = λ (q : QuotaRow). q.owner_sub == subject in
      let change = λ (q : QuotaRow).
        let sum = q.used_bytes +ℤ delta in
        record q { used_bytes = if ltb_ℤ sum (pos 0) then pos 0 else sum } in
      let kept : any (λ q. mine q && not (is_bigint (q.used_bytes +ℤ delta))) t.user_quota ≡ false
          → InBudget limit (record t { user_quota = update_where mine change t.user_quota }) =
        λ fits. record {
          within =
              All-update_where
                (λ q.
                  (Within limit q.used_bytes × (mine q ≡ true → q.used_bytes ≡ used))
                  × ((mine q && not (is_bigint (q.used_bytes +ℤ delta))) ≡ false))
                (λ q. Within limit q.used_bytes) mine change t.user_quota
                (λ q h e.
                  changed-Within q.used_bytes delta h.0.0 (rw (h.0.1 e) test) (ground arith))
                (λ q h e. h.0.0)
                (All-both _ _ t.user_quota (All-both _ _ t.user_quota r.budget.within r.agrees)
                  (All-of_any _ t.user_quota fits));
          once =
              Distinct-update_where same_quota mine change t.user_quota (λ q s. refl) (λ q s. refl)
                r.budget.once;
        } in
      Post-if (λ (n : ℕ). InBudget limit) _ _ _ kept

  module _ {C : Type 0} (backend : Backend C) (delta : ℤ) where
    ensure_quota-Stable : Stable (InBudget limit) (ensure_quota subject)
    ensure_quota-Stable = record {
      at = λ t t' used b e.
          (post_at (Read limit subject) _ used t' (ensure_quota-Read t b) e).budget;
    }

    changed :
        (used : ℤ) (s : Db C)
        → Of (Read limit subject used) s
        → (ltb_ℤ (pos 0) delta && ltb_ℤ limit (add64 used delta)) ≡ false
        → InBudget limit (query backend (change_quota subject delta) s).1.tables
    unfolding query
    changed used s r test =
        run_at backend (InBudget limit) _ s
          (λ n t e.
            post_at (λ _ x. InBudget limit x) _ n t
              (change_quota-InBudget s.tables used delta r.holds test) e)
          r.holds.budget

    changes_at :
        (used : ℤ) (s : Db C)
        → Of (Read limit subject used) s
        → (ltb_ℤ (pos 0) delta && ltb_ℤ limit (add64 used delta)) ≡ false
        → Of (InBudget limit) ((query backend (change_quota subject delta) >> pure tt) s).1
    changes_at used s r test =
        rw (>>-pure (query backend (change_quota subject delta)) tt s)
          (record { holds = changed used s r test })

    charge-Keeps : Keeps (Of (InBudget limit)) (charge backend subject delta limit)
    unfolding charge
    charge-Keeps =
        Keeps-bind_state _ (λ used. Of (Read limit subject used)) _ _
          (query-Keeps backend _ ensure_quota-Stable)
          (λ s used b e. record {
            holds =
                post_at (Read limit subject) _ used _ (ensure_quota-Read s.tables b.holds)
                  (query-ok backend _ s used e);
          })
          λ used s r.
            unless_at (Of (InBudget limit)) _ _ _ s (λ test. changes_at used s r test)
              (record { holds = r.holds.budget })

    -- `AddQuota` keeps every subject's use between 0 and the limit, whatever fails.
    pub add_quota-InBudget : Keeps (Of (InBudget limit)) (add_quota backend subject delta limit)
    unfolding add_quota
    add_quota-InBudget = transaction-Keeps backend _ charge-Keeps
