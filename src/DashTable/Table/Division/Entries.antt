-- ===== src/DashTable/Table/Division/Entries.antt =====
-- The directory after a `Split`: each entry leads to the new segment, to the old one, or to another.
use storage_engine.Base.{
  ℕ, suc, ◌+◌, ◌-◌, ◌/◌, ◌≤◌, ◌<◌, ◌≡◌, ◌≢◌, ◌⊎◌, sym, ap, ◌∙◌, subst, Bool, ◌==◌, if◌then◌else◌,
  inl, inr, Bool-cases, arith,
}
use storage_engine.Base.Words.{shl, shr, shr-suc}
use storage_engine.DashTable.Segment.Defs.{Policy, Segment}
use storage_engine.DashTable.Table.Defs.{Table, segment_at}
use storage_engine.DashTable.Table.Routing.{IsDirectory, slack}
use storage_engine.DashTable.Table.Division.{Divides, local, halved, low}

module _ {ℓ} {K V : Type ℓ} (p : Policy) (k₀ : K) (v₀ : V) (hash_fn : K → ℕ) (t : Table K V)
    (seg_id : ℕ) (dir : IsDirectory t) (lt : seg_id < t.directory_size)
    (room : local p k₀ v₀ hash_fn t seg_id < t.global_depth) (t' : Table K V)
    (div : Divides p k₀ v₀ hash_fn t seg_id t')
    (left_depth : ((halved p k₀ v₀ hash_fn t seg_id).0).local_depth
      ≡ local p k₀ v₀ hash_fn t seg_id + 1)
    (right_depth : ((halved p k₀ v₀ hash_fn t seg_id).1).local_depth
      ≡ local p k₀ v₀ hash_fn t seg_id + 1) where
  abbrev from : ℕ
  from = t.segment seg_id

  abbrev bits : ℕ
  bits = low p k₀ v₀ hash_fn t seg_id

  abbrev half : ℕ
  half = shr seg_id (slack t seg_id)

  -- An entry of the new segment, of the old one, or of another that is as it was.
  pub record Goes (r : ℕ) : Type 0 where
    pub now : t'.segment r ≡ t.next_address
    pub block : shr r bits ≡ half + half + 1
    pub before : t.segment r ≡ from
    pub slacks : slack t' r ≡ bits

  pub record Stays (r : ℕ) : Type 0 where
    pub now : t'.segment r ≡ from
    pub block : shr r bits ≡ half + half
    pub before : t.segment r ≡ from
    pub slacks : slack t' r ≡ bits

  pub record IsOther (r : ℕ) : Type 0 where
    pub now : t'.segment r ≡ t.segment r
    pub before : t.segment r ≢ from
    pub not_new : t.segment r ≢ t.next_address
    pub slacks : slack t' r ≡ slack t r

  -- An entry's bits above the ones that the old segment does not look at.
  above : (r : ℕ) → shr r (slack t seg_id) ≡ shr r bits / 2
  above r =
      let deeper : slack t seg_id ≡ suc bits = omega (arith, room) in
      ap (shr r) deeper ∙ shr-suc r bits

  same-above : (r : ℕ) → r < t.directory_size → t.segment r ≡ from → shr r (slack t seg_id) ≡ half
  same-above r lt' e = dir.agree seg_id r lt lt' e

  above-same : (r : ℕ) → r < t.directory_size → shr r (slack t seg_id) ≡ half → t.segment r ≡ from
  above-same r lt' e = dir.shared seg_id r lt lt' e

  not-new : (r : ℕ) → r < t.directory_size → t.segment r ≢ t.next_address
  not-new r lt' e = omega (arith, e, dir.used r lt')

  slack-at :
      (r a : ℕ) (s : Segment K V)
      → t'.segment r ≡ a
      → t'.store a ≡ s
      → slack t' r ≡ t.global_depth - s.local_depth
  slack-at r a s e e' =
      ap (λ d. d - (segment_at t' r).local_depth) div.global
      ∙ ap (λ c. t.global_depth - (t'.store c).local_depth) e
      ∙ ap (λ (u : Segment K V). t.global_depth - u.local_depth) e'

  pub entry-cases : (r : ℕ) → r < t.directory_size → Goes r ⊎ (Stays r ⊎ IsOther r)
  entry-cases r lt' = elim (Bool-cases (shr r bits == half + half + 1)) [
    | inl on ↦
        let block : shr r bits ≡ half + half + 1 = ground (arith, on) in
        let now : t'.segment r ≡ t.next_address =
          div.entry r ∙ ap (λ (b : Bool). if b then t.next_address else t.segment r) on in
        inl (record {
          now = now;
          block = block;
          before = above-same r lt' (omega (arith, above r, block));
          slacks =
              slack-at r t.next_address _ now div.at_target
              ∙ ap (λ d. t.global_depth - d) right_depth;
        })
    | inr off ↦
        let now : t'.segment r ≡ t.segment r =
          div.entry r ∙ ap (λ (b : Bool). if b then t.next_address else t.segment r) off in
        elim (native.Mathlib.Decide.ℕ_discrete (t.segment r) from) [
          | yes e ↦ inr (
              inl (record {
                now = now ∙ e;
                block = ground (arith, off, above r, same-above r lt' e);
                before = e;
                slacks =
                    slack-at r from _ (now ∙ e) div.at_source
                    ∙ ap (λ d. t.global_depth - d) left_depth;
              }))
          | no ne ↦ inr (
              inr (record {
                now = now;
                before = ne;
                not_new = not-new r lt';
                slacks =
                    slack-at r (t.segment r) _ now (div.elsewhere (t.segment r) (not-new r lt') ne);
              }))
        ]
  ]

  old-new : from ≢ t.next_address
  old-new = not-new seg_id lt

  -- No other entry has the old segment's bits.
  apart : (r : ℕ) → r < t.directory_size → IsOther r → shr r bits / 2 ≢ half
  apart r lt' o e = o.before (above-same r lt' (above r ∙ e))

  agree-at :
      (i j : ℕ)
      → i < t.directory_size
      → j < t.directory_size
      → t'.segment j ≡ t'.segment i
      → shr j (slack t' i) ≡ shr i (slack t' i)
  agree-at i j lt_i lt_j e = elim (entry-cases i lt_i) [
    | inl a ↦ elim (entry-cases j lt_j) [
      | inl b ↦ rw a.slacks (b.block ∙ sym a.block)
      | inr (inl b) ↦ absurd (old-new (sym b.now ∙ e ∙ a.now))
      | inr (inr b) ↦ absurd (b.not_new (sym b.now ∙ e ∙ a.now))
    ]
    | inr (inl a) ↦ elim (entry-cases j lt_j) [
      | inl b ↦ absurd (old-new (sym a.now ∙ sym e ∙ b.now))
      | inr (inl b) ↦ rw a.slacks (b.block ∙ sym a.block)
      | inr (inr b) ↦ absurd (b.before (sym b.now ∙ e ∙ a.now))
    ]
    | inr (inr a) ↦ elim (entry-cases j lt_j) [
      | inl b ↦ absurd (a.not_new (sym a.now ∙ sym e ∙ b.now))
      | inr (inl b) ↦ absurd (a.before (sym a.now ∙ sym e ∙ b.now))
      | inr (inr b) ↦ rw a.slacks (dir.agree i j lt_i lt_j (sym b.now ∙ e ∙ a.now))
    ]
  ]

  shared-at :
      (i j : ℕ)
      → i < t.directory_size
      → j < t.directory_size
      → shr j (slack t' i) ≡ shr i (slack t' i)
      → t'.segment j ≡ t'.segment i
  shared-at i j lt_i lt_j e = elim (entry-cases i lt_i) [
    | inl a ↦
        let here : shr j bits ≡ half + half + 1 = rw a.slacks at e ∙ a.block in
        elim (entry-cases j lt_j) [
          | inl b ↦ b.now ∙ sym a.now
          | inr (inl b) ↦ absurd (omega (arith, here, b.block))
          | inr (inr b) ↦ absurd (apart j lt_j b (omega (arith, here)))
        ]
    | inr (inl a) ↦
        let here : shr j bits ≡ half + half = rw a.slacks at e ∙ a.block in
        elim (entry-cases j lt_j) [
          | inl b ↦ absurd (omega (arith, here, b.block))
          | inr (inl b) ↦ b.now ∙ sym a.now
          | inr (inr b) ↦ absurd (apart j lt_j b (omega (arith, here)))
        ]
    | inr (inr a) ↦
        let here : t.segment j ≡ t.segment i = dir.shared i j lt_i lt_j (rw a.slacks at e) in
        elim (entry-cases j lt_j) [
          | inl b ↦ absurd (a.before (sym here ∙ b.before))
          | inr (inl b) ↦ absurd (a.before (sym here ∙ b.before))
          | inr (inr b) ↦ b.now ∙ here ∙ sym a.now
        ]
  ]

  depth-at : (i : ℕ) → i < t.directory_size → (segment_at t' i).local_depth ≤ t.global_depth
  depth-at i lt_i = elim (entry-cases i lt_i) [
    | inl a ↦
        let e =
          ap (λ c. (t'.store c).local_depth) a.now
          ∙ ap (λ (u : Segment K V). u.local_depth) div.at_target in
        omega (arith, e, right_depth, room)
    | inr (inl a) ↦
        let e =
          ap (λ c. (t'.store c).local_depth) a.now
          ∙ ap (λ (u : Segment K V). u.local_depth) div.at_source in
        omega (arith, e, left_depth, room)
    | inr (inr a) ↦
        let e =
          ap (λ c. (t'.store c).local_depth) a.now
          ∙ ap (λ (u : Segment K V). u.local_depth)
              (div.elsewhere (t.segment i) a.not_new a.before) in
        omega (arith, e, dir.deep i lt_i)
  ]

  used-at : (i : ℕ) → i < t.directory_size → t'.segment i < t.next_address + 1
  used-at i lt_i = elim (entry-cases i lt_i) [
    | inl a ↦ omega (arith, a.now)
    | inr (inl a) ↦ omega (arith, a.now, dir.used seg_id lt)
    | inr (inr a) ↦ omega (arith, a.now, dir.used i lt_i)
  ]

  -- The directory is in order after the split.
  pub divided-IsDirectory : IsDirectory t'
  divided-IsDirectory =
      let within = λ (i : ℕ) (h : i < t'.directory_size). subst (λ n. i < n) div.size h in
      record {
        small = rw div.global dir.small;
        size = div.size ∙ dir.size ∙ ap (shl 1) (sym div.global);
        deep = λ i h. rw div.global (depth-at i (within i h));
        used = λ i h. rw div.next (used-at i (within i h));
        agree = λ i j h h'. agree-at i j (within i h) (within j h');
        shared = λ i j h h'. shared-at i j (within i h) (within j h');
      }
