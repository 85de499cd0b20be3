-- ===== src/Commands/Values.antt =====
-- SET on a key that has an entry, and GET after it.
use storage_engine.Base.{
  ℕ, ◌+◌, ◌%◌, ◌^◌, ◌≡◌, refl, ap, ◌∙◌, bit_and, true, false, ◌==◌, List, none, some, inl, inr,
  Bool-cases, if◌then◌else◌, update, update_self, update_ne, arith,
}
use storage_engine.DashTable.Bucket.{Bucket}
use storage_engine.DashTable.Segment.Defs.{Policy, IsPolicy}
use storage_engine.DashTable.Segment.Rewriting.{Rewrites}
use storage_engine.DashTable.Table.Defs.{Table, TableIterator}
use storage_engine.DashTable.Table.Rewriting.{
  rewritten-IsTable, rewritten-entries_at, rewritten-bucket, rewritten-IsFound,
}
use storage_engine.Slice.Results.{of_value, is_ok, is_status}
use storage_engine.Slice.Defs.{
  ObjectOps, DbContext, DbSlice, SliceIterator, bucket_at, key_at, value_at, set_bucket_at,
  set_key_at, set_value_at, is_occupied, set_db,
}
use storage_engine.Slice.Find.{find_internal}
use storage_engine.Slice.Add.{add_or_find, find_or_add}
use storage_engine.Slice.Expire.{with_key, remove_expire, remove_expire_of}
use storage_engine.Slice.Keys.{
  IsTextual, IsSound, entries, IsAt, IsAt-unique, launder-IsAt, find_internal-cases,
  find_read_only-cases,
}
use storage_engine.Commands.SetParams.{SetParams, set_keep_expire}
use storage_engine.Commands.Strings.{change_expire, set_existing, set_entry, set, get}
use storage_engine.Commands.Keys.{HasTable, set_db-HasTable}

-- What SET relies on: that the expiry is cleared keeps the text and the hash of a key, and a value
-- gives the string back that was set.
pub record KeepsTexts {ℓ} {K V : Type ℓ} (ops : ObjectOps K V) : Type ℓ where
  pub clear_text :
      (k : K) (w : List ℕ) → ops.equals_view (ops.clear_expire_time k) w ≡ ops.equals_view k w
  pub clear_hash : (k : K) → ops.hash_key (ops.clear_expire_time k) ≡ ops.hash_key k
  pub stored : (w : List ℕ) (v : V) → ops.to_string (ops.set_string w v) ≡ w

module _ {ℓ} {K V : Type ℓ} (p : Policy) (ok : IsPolicy p) (ops : ObjectOps K V)
    (textual : IsTextual ops) (keeps : KeepsTexts ops) (key : List ℕ) (x : TableIterator) where
  -- A table with the entries of `t`, by their keys, where the key stands at `x` still.
  pub record Keeps (t t' : Table K V) : Type 0 where
    pub sound : IsSound p ok ops textual t'
    pub at : IsAt p ok ops textual t' sound key x
    pub contents : (w : List ℕ) → entries p ok ops textual w t' ≡ entries p ok ops textual w t

  Keeps-trans : (t t' t'' : Table K V) → Keeps t t' → Keeps t' t'' → Keeps t t''
  Keeps-trans t t' t'' a b = record {
    sound = b.sound;
    at = b.at;
    contents = λ w. b.contents w ∙ a.contents w;
  }

  module _ (t : Table K V) (sound : IsSound p ok ops textual t)
      (at : IsAt p ok ops textual t sound key x) where
    set_bucket_at-Keeps :
        (b : Bucket K V)
        → Rewrites (ops.hash_key) (ops.equals_view) (bucket_at t x) b
        → Keeps t (set_bucket_at x b t)
    unfolding set_bucket_at is_occupied
    set_bucket_at-Keeps b re =
        let (seg, occupied, found) = at in
        let there = rewritten-bucket p (ops.hash_key) (ops.hash_view) (ops.equals_view) t x b re in
        record {
          sound =
              rewritten-IsTable p (ops.hash_key) (ops.hash_view) (ops.equals_view) t x b re sound;
          at = (
            seg,
            rw (there, re.base) occupied,
            rewritten-IsFound p (ops.hash_key) (ops.hash_view) (ops.equals_view) t x b re key _
                found,
          );
          contents =
              rewritten-entries_at p (ops.hash_key) (ops.hash_view) (ops.equals_view) t x b re;
        }

    set_value_at-Keeps : (v : V) → Keeps t (set_value_at x v t)
    unfolding set_value_at
    set_value_at-Keeps v =
        set_bucket_at-Keeps
          (record (bucket_at t x) { value = update ((bucket_at t x).value) x.slot_id v })
          (record { base = refl; hash = λ j. refl; names = λ j w. refl })

    set_key_at-Keeps :
        (k : K)
        → ops.hash_key k ≡ ops.hash_key (key_at t x)
        → ((w : List ℕ) → ops.equals_view k w ≡ ops.equals_view (key_at t x) w)
        → Keeps t (set_key_at x k t)
    unfolding set_key_at
    set_key_at-Keeps k hash names =
        let old = (bucket_at t x).key in
        let self = update_self old x.slot_id k in
        set_bucket_at-Keeps (record (bucket_at t x) { key = update old x.slot_id k })
          (record {
            base = refl;
            hash = λ j. elim (native.Mathlib.Decide.ℕ_discrete j x.slot_id) [
              | yes e ↦ rw e (rw self hash)
              | no ne ↦ ap (ops.hash_key) (update_ne old x.slot_id j k ne)
            ];
            names = λ j w. elim (native.Mathlib.Decide.ℕ_discrete j x.slot_id) [
              | yes e ↦ rw e (rw self (names w))
              | no ne ↦ ap (λ c. ops.equals_view c w) (update_ne old x.slot_id j k ne)
            ];
          })

    Keeps-refl : Keeps t t
    Keeps-refl = record { sound = sound; at = at; contents = λ w. refl }

    abbrev i : SliceIterator
    i = record { it = some x; key = key }

    remove_expire-at : remove_expire p ops t i ≡ some (remove_expire_of p ops x (key_at t x) t)
    unfolding remove_expire with_key
    remove_expire-at = rw (with_key, launder-IsAt p ok ops textual t sound key x at) refl

    change_expire-Keeps :
        (params : SetParams) (at_ms : ℕ)
        → at_ms ≡ 0
        → (t' : Table K V) × (change_expire p ops params at_ms i t ≡ some t') × Keeps t t'
    unfolding change_expire remove_expire_of
    change_expire-Keeps params at_ms none_set =
        let never : (at_ms == 0) ≡ true = ground (arith, none_set) in
        let removed = remove_expire-at in
        let k = key_at t x in
        elim (Bool-cases (bit_and params.flags set_keep_expire == 0)) [
          | inr keep ↦ (t, rw (keep, change_expire) refl, Keeps-refl)
          | inl change ↦ elim (Bool-cases (ops.has_expire k)) [
            | inr no_expiry ↦
                (t, rw (change, change_expire, never, removed, no_expiry) refl, Keeps-refl)
            | inl expiry ↦ (
              set_key_at x (ops.clear_expire_time k) t,
              rw (change, change_expire, never, removed, expiry) refl,
              set_key_at-Keeps (ops.clear_expire_time k) (keeps.clear_hash k) (keeps.clear_text k),
            )
          ]
        ]

  value_at-set_value_at : (t : Table K V) (v : V) → value_at (set_value_at x v t) x ≡ v
  unfolding set_value_at set_bucket_at
  value_at-set_value_at t v =
      ap (λ (b : Bucket K V). b.value x.slot_id)
        (rewritten-bucket p (ops.hash_key) (ops.hash_view) (ops.equals_view) t x
          (record (bucket_at t x) { value = update ((bucket_at t x).value) x.slot_id v })
          (record { base = refl; hash = λ j. refl; names = λ j w. refl }))
      ∙ update_self ((bucket_at t x).value) x.slot_id v

  -- SET of the entry, given where it stands.
  set_existing-Keeps :
      (t : Table K V) (sound : IsSound p ok ops textual t)
      (at : IsAt p ok ops textual t sound key x) (params : SetParams) (cntx : DbContext)
      (value : List ℕ)
      → params.expire_after_ms ≡ 0
      → (t' : Table K V) × (set_existing p ops params cntx value
            (record { it = some x; key = key })
            t
          ≡ some t')
        × Keeps t t'
        × (ops.to_string (value_at t' x) ≡ value)
  unfolding set_existing
  set_existing-Keeps t sound at params cntx value never =
      let at_ms =
        if params.expire_after_ms == 0
        then 0
        else (params.expire_after_ms + cntx.time_now_ms) % 2 ^ 64 in
      let none_set : at_ms ≡ 0 = ground (arith, never) in
      let (t1, e, k1) = change_expire-Keeps t sound at params at_ms none_set in
      let new = ops.set_string value (value_at t1 x) in
      (
        set_value_at x new t1,
        rw (set_existing, launder-IsAt p ok ops textual t sound key x at, e) refl,
        Keeps-trans t t1 (set_value_at x new t1) k1 (set_value_at-Keeps t1 k1.sound k1.at new),
        ap (ops.to_string) (value_at-set_value_at t1 new) ∙ keeps.stored value (value_at t1 x),
      )

module _ {ℓ} {K V : Type ℓ} (p : Policy) (ok : IsPolicy p) (ops : ObjectOps K V)
    (textual : IsTextual ops) (k₀ : K) (v₀ : V) (fuel : ℕ) (cntx : DbContext) (key : List ℕ) where
  add_or_find-existing :
      (s : DbSlice K V) (t : Table K V) (has : HasTable p ok ops textual cntx s t)
      (x : TableIterator)
      → find_internal p ops cntx key none s ≡ of_value (some x)
      → is_occupied t x ≡ true
      → add_or_find p ops k₀ v₀ fuel cntx key none s
        ≡ some (of_value (record { it = record { it = some x; key = key }; is_new = false }), s)
  unfolding add_or_find find_or_add is_ok is_status
  add_or_find-existing s t has x e occupied =
      rw (add_or_find, has.here, e, find_or_add, occupied) refl

  get-at :
      (s : DbSlice K V) (t : Table K V) (has : HasTable p ok ops textual cntx s t)
      (x : TableIterator)
      → IsAt p ok ops textual t has.sound key x
      → entries p ok ops textual key t ≡ 1
      → get p ops cntx key s ≡ of_value (ops.to_string (value_at t x))
  unfolding get
  get-at s t has x at found =
      elim (find_read_only-cases p ok ops textual cntx s t has.valid has.here has.sound key) [
        | inl (e, no_entry) ↦ absurd (omega (arith, no_entry, found))
        | inr (y, e, at_y, one) ↦
            let same = IsAt-unique p ok ops textual t has.sound key x y at at_y in
            rw (get, has.here, e, same) refl
      ]

  -- SET without an expiry of a key that has an entry, on a slice whose table has a map in every segment,
  -- and where clearing an expiry keeps the text and the hash of a key and a value gives back the string
  -- that was set: it returns; GET of the key then gives the value that was set; the table is sound, and each key has as many entries as before.
  pub set-get :
      KeepsTexts ops
      → (s : DbSlice K V) (t : Table K V) → HasTable p ok ops textual cntx s t
      → entries p ok ops textual key t ≡ 1
      → (params : SetParams) → params.expire_after_ms ≡ 0
      → (value : List ℕ)
      → (s' : DbSlice K V) × (set p ops k₀ v₀ fuel params cntx key value s ≡ some s')
        × (get p ops cntx key s' ≡ of_value value)
        × ((t' : Table K V) × HasTable p ok ops textual cntx s' t'
            × ((w : List ℕ) → entries p ok ops textual w t' ≡ entries p ok ops textual w t))
  unfolding set set_entry
  set-get keeps s t has one params never value =
      elim (find_internal-cases p ok ops textual cntx s t has.valid has.here has.sound key) [
        | inl (e, no_entry) ↦ absurd (omega (arith, no_entry, one))
        | inr (x, e, at, _) ↦
            let (t', written, kept, new) =
              set_existing-Keeps p ok ops textual keeps key x t has.sound at params cntx value
                never in
            let s' = set_db cntx.db_index t' s in
            let has' = set_db-HasTable p ok ops textual cntx s t has key t' kept.sound in
            (
              s',
              rw (set, add_or_find-existing s t has x e (at.1), has.here, set_entry, written) refl,
              get-at s' t' has' x kept.at (kept.contents key ∙ one) ∙ ap of_value new,
              (t', has', kept.contents),
            )
      ]
