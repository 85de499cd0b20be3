-- ===== src/Examples/Entries.antt =====
-- SET and GET on a table of one segment, in which key 6 has the value "A".
use storage_engine.Base.{ℕ, ◌≡◌, refl, ap, ◌∙◌, Bool, false, List, [], ◌∷◌, some, to_nat, arith}
use storage_engine.Base.Equality.{eq_bytes_refl}
use storage_engine.Base.Words.{testbit, shr}
use storage_engine.DashTable.Bucket.{Bucket, insert}
use storage_engine.DashTable.Bucket.Base
use storage_engine.DashTable.Bucket.Base.{set_hash}
use storage_engine.DashTable.Bucket.Insert.{Inserts, count-Inserts, insert-Inserts}
use storage_engine.DashTable.Segment.Defs.{Segment, fingerprint, home_index, set_bucket}
use storage_engine.DashTable.Segment.Placement.{set_bucket-AllPlaced, Inserts-IsPlaced}
use storage_engine.DashTable.Segment.Contents.{total, total-set_bucket}
use storage_engine.DashTable.Segment.Stash.Frame.{set_bucket-IsBalanced}
use storage_engine.DashTable.Segment.Map.{IsMap}
use storage_engine.DashTable.Table.Defs.{Table, new_segment, segment_id}
use storage_engine.DashTable.Table.Fresh.{new_segment-IsMap}
use storage_engine.Slice.Results.{of_value}
use storage_engine.Slice.Defs.{ObjectOps, DbSlice, is_db_valid}
use storage_engine.Slice.Keys.{IsTextual, IsSound, entries}
use storage_engine.Commands.SetParams.{SetParams}
use storage_engine.Commands.Strings.{set, get}
use storage_engine.Commands.Keys.{HasTable}
use storage_engine.Commands.Values.{KeepsTexts, set-get}
use storage_engine.Objects.{CompactObj, hash_code, by_tag, from_string, set_string, equals_view}
use storage_engine.Objects.Store.{Key, object_ops, object_ops-IsTextual, object_ops-KeepsTexts}
use storage_engine.Examples.Values.{no_slots-IsValid}
use storage_engine.Examples.Segments.{tiny, tiny-IsPolicy}
use storage_engine.Examples.Stores.{hash_name, context}

abbrev text_ops : ObjectOps Key CompactObj
text_ops = object_ops (λ _. 0) hash_name (λ _. [])

text_ops-IsTextual : IsTextual text_ops
text_ops-IsTextual = object_ops-IsTextual (λ _. 0) hash_name (λ _. [])

text_ops-KeepsTexts : KeepsTexts text_ops
text_ops-KeepsTexts = object_ops-KeepsTexts (λ _. 0) hash_name (λ _. [])

abbrev six_key : Key
six_key = text_ops.key_of_view (6 ∷ [])

abbrev no_value : CompactObj
no_value = text_ops.empty_value

abbrev no_texts : Segment Key CompactObj
no_texts = record {
  bucket = λ _. record { base = Base.empty; key = λ _. six_key; value = λ _. no_value };
  local_depth = 0;
  segment_id = 0;
}

no_texts-IsMap :
    IsMap tiny (text_ops.hash_key) (text_ops.equals_view) no_texts
    × ((q : Key → CompactObj → Bool) → total tiny q no_texts ≡ 0)
unfolding new_segment
no_texts-IsMap =
    new_segment-IsMap six_key no_value tiny (text_ops.hash_key) (text_ops.equals_view) 0 0

-- "A" for key 6.
abbrev old : CompactObj
old = text_ops.value_of_view (65 ∷ [])

abbrev six : Bucket Key CompactObj
six = insert 0 six_key old (fingerprint 6) false (no_texts.bucket 0)

six-Inserts : Inserts 1 six_key old (fingerprint 6) false (no_texts.bucket 0) 0 six
unfolding testbit
six-Inserts =
    insert-Inserts 1 six_key old (fingerprint 6) false (no_texts.bucket 0) 0 (omega arith)
      (no_slots-IsValid 1) (omega arith) refl

abbrev one_text : Segment Key CompactObj
one_text = set_bucket no_texts 0 six

one_text-total : (q : Key → CompactObj → Bool) → total tiny q one_text ≡ to_nat (q six_key old)
one_text-total q = omega (
  arith,
  total-set_bucket tiny q no_texts 0 six (omega arith),
  (no_texts-IsMap.1) q,
  count-Inserts 1 q six-Inserts,
)

one_text-IsMap : IsMap tiny (text_ops.hash_key) (text_ops.equals_view) one_text
unfolding home_index shr hash_code by_tag from_string set_string
one_text-IsMap =
    let none_yet = no_texts-IsMap.0 in
    record {
      placed = set_bucket-AllPlaced tiny (text_ops.hash_key) no_texts 0 six none_yet.placed (
          Inserts-IsPlaced tiny (text_ops.hash_key) 0 {k = six_key} {v = old} {probe = false}
            {slot = 0} (none_yet.placed 0) (record { home = λ _. refl; stash = λ _. refl })
            six-Inserts);
      balanced =
          set_bucket-IsBalanced tiny (text_ops.hash_key) no_texts 0 six (omega arith)
            (six-Inserts.pointers) none_yet.balanced;
      unique = λ w. ground (arith, one_text-total (λ k _. text_ops.equals_view k w));
    }

abbrev texts : Table Key CompactObj
texts = record {
  segment = λ _. 0;
  directory_size = 1;
  store = λ _. one_text;
  next_address = 1;
  size = 1;
  unique_segments = 1;
  bucket_count = 6;
  initial_depth = 0;
  global_depth = 0;
}

texts-IsSound : IsSound tiny tiny-IsPolicy text_ops text_ops-IsTextual texts
unfolding segment_id
texts-IsSound = record { maps = λ _. one_text-IsMap; routes = λ _. omega arith }

abbrev text_slice : DbSlice Key CompactObj
text_slice = record { db_count = 1; db_arr = λ _. some texts }

text_slice-HasTable :
    HasTable tiny tiny-IsPolicy text_ops text_ops-IsTextual context text_slice texts
unfolding is_db_valid
text_slice-HasTable = record { valid = refl; here = refl; sound = texts-IsSound }

six-entries : entries tiny tiny-IsPolicy text_ops text_ops-IsTextual (6 ∷ []) texts ≡ 1
unfolding equals_view from_string set_string
six-entries =
    one_text-total (λ k _. text_ops.equals_view k (6 ∷ [])) ∙ ap to_nat (eq_bytes_refl (6 ∷ []))

abbrev plain : SetParams
plain = record { flags = 0; expire_after_ms = 0 }

-- SET gives key 6 the value "BC".
abbrev new : List ℕ
new = 66 ∷ 67 ∷ []

set-get_example :
    (s' : DbSlice Key CompactObj) × (set tiny text_ops six_key no_value 1 plain context
        (6 ∷ [])
        new
        text_slice
      ≡ some s')
    × (get tiny text_ops context (6 ∷ []) s' ≡ of_value new)
    × ((t' : Table Key CompactObj) × HasTable tiny tiny-IsPolicy text_ops text_ops-IsTextual context
          s' t'
        × ((w : List ℕ)
            → entries tiny tiny-IsPolicy text_ops text_ops-IsTextual w t'
              ≡ entries tiny tiny-IsPolicy text_ops text_ops-IsTextual w texts))
set-get_example =
    set-get tiny tiny-IsPolicy text_ops text_ops-IsTextual six_key no_value 1 context (6 ∷ [])
      text_ops-KeepsTexts text_slice texts text_slice-HasTable six-entries plain refl new
