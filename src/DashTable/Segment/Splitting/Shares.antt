-- ===== src/DashTable/Segment/Splitting/Shares.antt =====
-- What a part of a split does to the two segments: their entries are shared out, and none is new.
use storage_engine.Base.{
  ℕ, ◌+◌, ◌*◌, ◌≤◌, ◌<◌, ◌≡◌, refl, ◌∙◌, Bool, true, false, ◌&&◌, not, to_nat, inl, inr,
  sum_below-full, sum_below-six, arith,
}
use storage_engine.DashTable.Bucket.Insert.{count, entry}
use storage_engine.DashTable.Segment.Defs.{Policy, IsPolicy, Segment, home_index, next_bid}
use storage_engine.DashTable.Segment.Placement.{AllPlaced, home_index-lt, next_bid-lt, next_bid-ne}
use storage_engine.DashTable.Segment.Contents.{total}
use storage_engine.DashTable.Segment.Stash.{IsBalanced}
use storage_engine.DashTable.Segment.Insertion.Steps.{IsCrowded}
use storage_engine.DashTable.Segment.Insertion.Depths.{insert_uniq-IsDeep}
use storage_engine.DashTable.Segment.Insertion.Total.{IsExhausted, insert_uniq-Adds}
use storage_engine.DashTable.Segment.Splitting.{is_mine, send}

module _ {ℓ} {K V : Type ℓ} where
  abbrev pub every : K → V → Bool
  every _ _ = true

module _ {ℓ} {K V : Type ℓ} (p : Policy) (ok : IsPolicy p) (hash_fn : K → ℕ) (depth : ℕ) where
  -- The entries that stay, and those that go.
  abbrev pub stays : K → V → Bool
  stays k _ = is_mine depth (hash_fn k)

  abbrev pub goes : K → V → Bool
  goes k _ = not (is_mine depth (hash_fn k))

  -- A segment in order.
  pub record IsSound (s : Segment K V) : Type 0 where
    pub placed : AllPlaced p hash_fn s
    pub balanced : IsBalanced p hash_fn s

  -- Those of the entries that stay which `q` accepts.
  abbrev pub both : (K → V → Bool) → K → V → Bool
  both q k v = is_mine depth (hash_fn k) && q k v

  -- From `s` and `d` to `s'` and `d'`: nothing is new, no entry that stays is lost or comes to the
  -- second segment, and none is lost as long as that has fewer entries than six buckets hold.
  pub record Splits (s d s' d' : Segment K V) : Type ℓ where
    pub left : IsSound s'
    pub right : IsSound d'
    pub le : (q : K → V → Bool) → total p q s' + total p q d' ≤ total p q s + total p q d
    pub grows : total p every d ≤ total p every d'
    pub exact :
        total p every d' < 6 * p.slot_num
        → (q : K → V → Bool) → total p q s' + total p q d' ≡ total p q s + total p q d
    pub shrinks : (l : ℕ) → count p.slot_num goes (s'.bucket l) ≤ count p.slot_num goes (s.bucket l)
    pub keeps : (q : K → V → Bool) → total p (both q) s' ≡ total p (both q) s
    pub apart : total p stays d' ≡ total p stays d
    pub right_depth : d'.local_depth ≡ d.local_depth

  pub Splits-refl : (s d : Segment K V) → IsSound s → IsSound d → Splits s d s d
  Splits-refl s d left right = record {
    left = left;
    right = right;
    le = λ q. omega arith;
    grows = omega arith;
    exact = λ _ q. refl;
    shrinks = λ l. omega arith;
    keeps = λ q. refl;
    apart = refl;
    right_depth = refl;
  }

  pub Splits-trans :
      (s d s' d' s'' d'' : Segment K V)
      → Splits s d s' d'
      → Splits s' d' s'' d''
      → Splits s d s'' d''
  Splits-trans s d s' d' s'' d'' a b = record {
    left = b.left;
    right = b.right;
    le = λ q. omega (arith, a.le q, b.le q);
    grows = omega (arith, a.grows, b.grows);
    exact = λ few q. b.exact few q ∙ a.exact (omega (arith, few, b.grows)) q;
    shrinks = λ l. omega (arith, a.shrinks l, b.shrinks l);
    keeps = λ q. b.keeps q ∙ a.keeps q;
    apart = b.apart ∙ a.apart;
    right_depth = b.right_depth ∙ a.right_depth;
  }

  count-crowded :
      (s : Segment K V) (i : ℕ) → IsCrowded p s i → count p.slot_num every (s.bucket i) ≡ p.slot_num
  unfolding count
  count-crowded s i full =
      sum_below-full p.slot_num (entry every (s.bucket i)) (λ j lt. ground (arith, full j lt))

  -- Where an insertion finds no room, six buckets are full.
  pub exhausted-total :
      (hash : ℕ) (d : Segment K V) → IsExhausted p hash d → 6 * p.slot_num ≤ total p every d
  unfolding total
  exhausted-total hash d ex =
      let y = home_index p hash in
      let f = λ (i : ℕ). count p.slot_num every (d.bucket i) in
      let at_stash =
        λ (i : ℕ) (lt : i < 4). count-crowded d (p.bucket_num + i) (ex.at_stash i lt) in
      omega (
        arith,
        sum_below-six p.bucket_num f y (next_bid p y) (home_index-lt p ok hash) (next_bid-lt p ok y)
            (next_bid-ne p ok y (home_index-lt p ok hash)),
        count-crowded d y ex.at_home,
        count-crowded d (next_bid p y) ex.at_next,
        at_stash 0 (omega arith),
        at_stash 1 (omega arith),
        at_stash 2 (omega arith),
        at_stash 3 (omega arith),
      )

  -- The outcome of sending an entry to the second segment.
  pub record Sends (k : K) (v : V) (d d' : Segment K V) : Type ℓ where
    pub sound : IsSound d'
    pub le : (q : K → V → Bool) → total p q d' ≤ total p q d + to_nat (q k v)
    pub grows : total p every d ≤ total p every d'
    pub exact :
        total p every d' < 6 * p.slot_num
        → (q : K → V → Bool) → total p q d' ≡ total p q d + to_nat (q k v)
    pub apart : total p stays d' ≡ total p stays d
    pub depths : d'.local_depth ≡ d.local_depth

  pub send-Sends :
      (k : K) (v : V) (d : Segment K V)
      → IsSound d
      → is_mine depth (hash_fn k) ≡ false
      → Sends k v d (send p hash_fn k v d)
  unfolding send
  send-Sends k v d sound other =
      let deep = insert_uniq-IsDeep p d k v (hash_fn k) false in
      elim (insert_uniq-Adds p ok hash_fn k v d sound.placed false) [
        | inl (e, full) ↦
            rw (e, send)
              (record {
                sound = sound;
                le = λ q. omega arith;
                grows = omega arith;
                exact = λ few _. absurd (omega (arith, few, exhausted-total (hash_fn k) d full));
                apart = refl;
                depths = refl;
              })
        | inr (it, d', e, adds, keeps) ↦
            rw (e, send)
              (record {
                sound = record { placed = adds.placed; balanced = keeps sound.balanced };
                le = λ q. omega (arith, adds.contents q);
                grows = omega (arith, adds.contents every);
                exact = λ _ q. adds.contents q;
                apart = ground (arith, adds.contents stays, other);
                depths = rw e at deep;
              })
      ]
