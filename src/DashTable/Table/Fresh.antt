-- ===== src/DashTable/Table/Fresh.antt =====
-- The segment that the table starts with.
use storage_engine.Base.{ℕ, ◌≡◌, Bool, true, false, sum_below-eq-zero, arith}
use storage_engine.Base.Words.{testbit-zero}
use storage_engine.DashTable.Bucket.{Bucket}
use storage_engine.DashTable.Bucket.Base
use storage_engine.DashTable.Bucket.Base.{has_stash}
use storage_engine.DashTable.Bucket.Insert.{count}
use storage_engine.DashTable.Bucket.Counting.{Test, IsTidy, pointers}
use storage_engine.DashTable.Segment.Defs.{Policy, total_buckets}
use storage_engine.DashTable.Segment.Contents.{total}
use storage_engine.DashTable.Segment.Stash.{stashed, belongs}
use storage_engine.DashTable.Segment.Map.{IsMap}
use storage_engine.DashTable.Table.Defs.{new_segment}

pub empty-IsTidy : IsTidy Base.empty
empty-IsTidy = record { fits = λ i _. testbit-zero i; idle = λ i _ _. testbit-zero i }

pointers-empty : (pr : Bool) (q : Test) → pointers Base.empty pr q ≡ 0
unfolding pointers
pointers-empty pr q = sum_below-eq-zero 4 _ (λ i _. ground (arith, testbit-zero i))

module _ {ℓ} {K V : Type ℓ} (k₀ : K) (v₀ : V) where
  abbrev fresh_bucket : Bucket K V
  fresh_bucket = record { base = Base.empty; key = λ _. k₀; value = λ _. v₀ }

  count-fresh : (n : ℕ) (q : K → V → Bool) → count n q fresh_bucket ≡ 0
  unfolding count
  count-fresh n q = sum_below-eq-zero n _ (λ i _. ground (arith, testbit-zero i))

  -- A new segment is a map without entries: its buckets are in order and its stash references in
  -- balance.
  pub new_segment-IsMap {κ} :
      {T : Type κ} (p : Policy) (hash_fn : K → ℕ) (equal : K → T → Bool) (depth id : ℕ)
      → let s = new_segment k₀ v₀ depth id in
        IsMap p hash_fn equal s × ((q : K → V → Bool) → total p q s ≡ 0)
  unfolding new_segment total stashed has_stash
  new_segment-IsMap p hash_fn equal depth id =
      let none_left = λ (q : K → V → Bool).
        sum_below-eq-zero (total_buckets p) (λ _. count p.slot_num q fresh_bucket)
          (λ i _. count-fresh p.slot_num q) in
      (
        record {
          placed = λ i. record {
            valid = record { fits = λ j h. testbit-zero j; idle = λ j _. testbit-zero j };
            prints = λ j on. absurd (cc (on, testbit-zero j));
            stands = λ j on. absurd (cc (on, testbit-zero j));
          };
          balanced = record {
            tidy = λ l. empty-IsTidy;
            balance = λ y _.
                let none_stashed = λ (q : Test).
                  sum_below-eq-zero 4
                    (λ pos. count p.slot_num (belongs p hash_fn y q pos) fresh_bucket)
                    (λ pos _. count-fresh p.slot_num (belongs p hash_fn y q pos)) in
                record {
                  below = λ q. omega (arith, pointers-empty false q, pointers-empty true q);
                  all = omega (
                    arith,
                    none_stashed (λ _ _. true),
                    pointers-empty false (λ _ _. true),
                    pointers-empty true (λ _ _. true),
                  );
                  present = λ _. none_stashed (λ _ _. true);
                };
          };
          unique = λ w. omega (arith, none_left (λ k _. equal k w));
        },
        none_left,
      )
