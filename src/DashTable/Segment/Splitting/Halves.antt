-- ===== src/DashTable/Segment/Splitting/Halves.antt =====
-- `Split` as a whole: a map is split into two maps, by one bit of the hash.
use storage_engine.Base.{
  ℕ, ◌+◌, ◌*◌, ◌≤◌, ◌<◌, ◌≡◌, ◌⊎◌, refl, ap, ◌∙◌, Bool, true, false, not, leb, if◌then◌else◌, none,
  some, inl, inr, Bool-cases, sum_below-eq-zero, arith,
}
use storage_engine.DashTable.Segment.Defs.{Policy, IsPolicy, Segment, Iterator, total_buckets}
use storage_engine.DashTable.Segment.Contents.{total}
use storage_engine.DashTable.Segment.Lookup.{find_it}
use storage_engine.DashTable.Segment.Map.{IsNaming, IsMap, entries_of, find_it-named}
use storage_engine.DashTable.Segment.Splitting.{is_mine, split}
use storage_engine.DashTable.Segment.Splitting.Shares.{every, both, stays, goes}
use storage_engine.DashTable.Segment.Splitting.Whole.{
  Emptied, both-Emptied, deepened-IsSound, total-le, total-either,
}

module _ {ℓ κ} {K V : Type ℓ} {T : Type κ} (p : Policy) (ok : IsPolicy p) (hash_fn : K → ℕ)
    (equal : K → T → Bool) where
  -- The segments `s'` and `d'` that a segment `s` is split into: both are maps one bit deeper, the first
  -- has every entry of `s` that stays and no other, the second has none but entries of `s` that go,
  -- and all of these unless six buckets' worth of them went.
  pub record IsSplit (s s' d' : Segment K V) : Type (ℓ ⊔ κ) where
    pub left : IsMap p hash_fn equal s'
    pub right : IsMap p hash_fn equal d'
    pub deeper : s'.local_depth ≡ s.local_depth + 1
    pub right_deeper : d'.local_depth ≡ s.local_depth + 1
    pub none_goes : total p (goes p ok hash_fn (s.local_depth + 1)) s' ≡ 0
    pub none_stays : total p (stays p ok hash_fn (s.local_depth + 1)) d' ≡ 0
    pub keeps :
        (q : K → V → Bool)
        → total p (both p ok hash_fn (s.local_depth + 1) q) s'
          ≡ total p (both p ok hash_fn (s.local_depth + 1) q) s
    pub no_more : (q : K → V → Bool) → total p q s' + total p q d' ≤ total p q s
    pub shared :
        (6 * p.slot_num ≤ total p (goes p ok hash_fn (s.local_depth + 1)) s)
        ⊎ ((q : K → V → Bool) → total p q s' + total p q d' ≡ total p q s)

  module _ (s d : Segment K V) (map : IsMap p hash_fn equal s) (fresh : IsMap p hash_fn equal d)
      (empty : (q : K → V → Bool) → total p q d ≡ 0) where
    abbrev depth : ℕ
    depth = s.local_depth + 1

    abbrev s1 : Segment K V
    s1 = record s { local_depth = depth }

    abbrev d1 : Segment K V
    d1 = record d { local_depth = depth }

    looped : Emptied p ok hash_fn depth s1 d1 0 (total_buckets p) (split p hash_fn s d)
    unfolding split
    looped =
        both-Emptied p ok hash_fn depth s1 d1
          (deepened-IsSound p ok hash_fn depth depth s
            (record { placed = map.placed; balanced = map.balanced }))
          (deepened-IsSound p ok hash_fn depth depth d
            (record { placed = fresh.placed; balanced = fresh.balanced }))
          refl

    -- `Split` of a segment that is a map, into a new one that has no entry: both are then maps, one bit
    -- deeper; the first has all the entries whose next hash bit is zero and no others; the second has
    -- entries whose bit is one and no others, and has all of them if there were fewer than six
    -- buckets hold.
    pub split-IsSplit : IsSplit s ((split p hash_fn s d).0) ((split p hash_fn s d).1)
    unfolding total
    split-IsSplit =
        let out = split p hash_fn s d in
        let sp = looped.splits in
        let least : (q : K → V → Bool) → total p q (out.0) + total p q (out.1) ≤ total p q s =
          λ q. omega (arith, sp.le q, empty q) in
        let apart : total p (stays p ok hash_fn depth) (out.1) ≡ 0 =
          sp.apart ∙ empty (stays p ok hash_fn depth) in
        record {
          left = record {
            placed = sp.left.placed;
            balanced = sp.left.balanced;
            unique = λ w. omega (arith, least (λ k _. equal k w), map.unique w);
          };
          right = record {
            placed = sp.right.placed;
            balanced = sp.right.balanced;
            unique = λ w. omega (arith, least (λ k _. equal k w), map.unique w);
          };
          deeper = looped.depths;
          right_deeper = sp.right_depth;
          none_goes =
              sum_below-eq-zero (total_buckets p) _ (λ l lt. looped.empty l (omega arith) lt);
          none_stays = apart;
          keeps = sp.keeps;
          no_more = least;
          shared = elim (Bool-cases (leb (6 * p.slot_num) (total p (goes p ok hash_fn depth) s))) [
            | inl many ↦ inl (ground (arith, many))
            | inr room ↦
                let below : total p every (out.1) < 6 * p.slot_num = ground (
                  arith,
                  room,
                  total-either p (stays p ok hash_fn depth) (out.1),
                  apart,
                  least (goes p ok hash_fn depth),
                ) in
                inr (λ q. omega (arith, sp.exact below q, empty q))
          ];
        }

    module _ (hash_name : T → ℕ) (naming : IsNaming hash_fn hash_name equal)
        (room : total p (goes p ok hash_fn depth) s < 6 * p.slot_num) (w : T) where
      abbrev pub mine : Bool
      mine = is_mine depth (hash_name w)

      abbrev pub half : Bool → Segment K V
      half own = if own then (split p hash_fn s d).0 else (split p hash_fn s d).1

      -- The entries of the name, in the two halves.
      pub halves :
          (entries_of p hash_fn equal w (half mine) ≡ entries_of p hash_fn equal w s)
          × (entries_of p hash_fn equal w (half (not mine)) ≡ 0)
      halves =
          let sp = split-IsSplit in
          let named : K → V → Bool = λ k _. equal k w in
          let exact : total p named (half true) + total p named (half false) ≡ total p named s =
            elim sp.shared [
              | inl many ↦ absurd (omega (arith, many, room))
              | inr all ↦ all named
            ] in
          elim (Bool-cases mine) [
            | inl yes_mine ↦
                let none_there =
                  total-le p named (stays p ok hash_fn depth) (half false)
                    (λ k v own. ap (is_mine depth) (naming.hash k w own) ∙ yes_mine) in
                rw (yes_mine) (
                  omega (arith, exact, none_there, sp.none_stays),
                  omega (arith, none_there, sp.none_stays),
                )
            | inr other ↦
                let none_there =
                  total-le p named (goes p ok hash_fn depth) (half true)
                    (λ k v own. ap not (ap (is_mine depth) (naming.hash k w own) ∙ other)) in
                rw (other) (
                  omega (arith, exact, none_there, sp.none_goes),
                  omega (arith, none_there, sp.none_goes),
                )
          ]

      pub half-IsMap : (own : Bool) → IsMap p hash_fn equal (half own)
      half-IsMap true = split-IsSplit.left
      half-IsMap false = split-IsSplit.right

      -- `FindIt` of a name after a split, where the segment was a map, the new one empty, and fewer
      -- entries went than six buckets hold: in the half that the next bit of the name's hash selects it
      -- finds an entry exactly when it did before, and in the other half it finds none.
      pub split-find_it :
          let find = find_it p (λ k. equal k w) (hash_name w) in
          (((find s ≡ none) × (find (half mine) ≡ none))
            ⊎ ((it : Iterator) × (it' : Iterator) × (find s ≡ some it)
                × (find (half mine) ≡ some it')))
          × (find (half (not mine)) ≡ none)
      split-find_it =
          let (same, nothing) = halves in
          let before = find_it-named p ok hash_fn hash_name equal naming s map w in
          let after = λ (own : Bool).
            find_it-named p ok hash_fn hash_name equal naming (half own) (half-IsMap own) w in
          (
            elim before [
              | inl (e, zero_before) ↦ elim (after mine) [
                | inl (e', _) ↦ inl (e, e')
                | inr (_, _, _, more) ↦ absurd (omega (arith, same, zero_before, more))
              ]
              | inr (it, e, _, more) ↦ elim (after mine) [
                | inl (_, zero_after) ↦ absurd (omega (arith, same, zero_after, more))
                | inr (it', e', _, _) ↦ inr (it, it', e, e')
              ]
            ],
            elim (after (not mine)) [
              | inl (e, _) ↦ e
              | inr (_, _, _, more) ↦ absurd (omega (arith, nothing, more))
            ],
          )
