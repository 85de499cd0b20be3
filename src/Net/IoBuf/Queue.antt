-- ===== src/Net/IoBuf/Queue.antt =====
-- The buffer as a queue of bytes: what the operations do to the bytes that are to be read.
use storage_engine.Base.{
  ℕ, ◌+◌, ◌-◌, ◌≤◌, ◌<◌, ◌≡◌, sym, ap, ◌∙◌, List, [], ◌++◌, ltb, leb, length, take, drop,
  length-append, length-take, length-drop, take-append, drop-append, take-append_ge,
  take-append-drop, drop-length, take-length, subst, Bool-cases, inl, inr, arith,
}
use mathlib.Core.List.{append_assoc}
use storage_engine.Net.IoBuf.{
  IoBuf, readable_size, writable_size, read_view, copy_to, move_write_index, append, consume,
  append_from_fd, prepend,
}
use storage_engine.Net.IoBuf.Layout.{
  IsValid, Holds, Holds-length, Holds-IsValid, Holds-read_view, IsValid-Holds,
  ensure_appendable-Holds,
}

-- The buffer is valid and `held` is what is to be read.
abbrev pub Contains : List ℕ → IoBuf → Type 0
Contains held b = IsValid b × (read_view b ≡ held)

Holds-Contains : {held : List ℕ} {b : IoBuf} → Holds held b → Contains held b
Holds-Contains h = (Holds-IsValid h, Holds-read_view h)

-- A copy behind the bytes, and the write index behind the copy.
written-Holds :
    {held : List ℕ} {b : IoBuf}
    → Holds held b
    → (bytes : List ℕ)
    → Holds (held ++ bytes) (
        move_write_index
          (length bytes)
          (record b { buffer = copy_to bytes b.write_index b.buffer }))
unfolding move_write_index
written-Holds {held} {b} h bytes =
    let tail = drop (b.write_index + length bytes) b.buffer in
    let kept : take b.write_index b.buffer ≡ h.front ++ held =
      ap (take b.write_index) (h.bytes ∙ sym (append_assoc h.front held h.back))
      ∙ take-append (h.front ++ held) h.back b.write_index
          (h.write ∙ sym (length-append h.front held)) in
    record {
      front = h.front;
      back = tail;
      bytes = ap (λ xs. xs ++ (bytes ++ tail)) kept ∙ simp append_assoc;
      read = h.read;
      write = omega (arith, h.write, length-append held bytes);
      margin = h.margin;
    }

append-Holds :
    {held : List ℕ} {b : IoBuf}
    → Holds held b
    → (bytes : List ℕ) → Holds (held ++ bytes) (append bytes b)
unfolding append
append-Holds h bytes = written-Holds ((ensure_appendable-Holds h (length bytes)).0) bytes

-- `append` on a valid buffer leaves a valid buffer, whether or not it moves or grows the vector, and
-- the bytes to be read are those of before and then the new ones.
pub append-Contains :
    (b : IoBuf) (bytes : List ℕ) → IsValid b → Contains (read_view b ++ bytes) (append bytes b)
append-Contains b bytes v = Holds-Contains (append-Holds (IsValid-Holds v) bytes)

consume-Holds :
    {held : List ℕ} {b : IoBuf}
    → Holds held b
    → (size : ℕ) → size ≤ length held
    → Holds (drop size held) (consume size b)
unfolding consume
consume-Holds {held} {b} h size le =
    let readable : readable_size b ≡ length held = omega (arith, h.read, h.write) in
    let taken = length-take size held in
    let rest = length-drop size held in
    elim (Bool-cases (ltb size (readable_size b))) [
      | inl part ↦ rw part (record {
        front = h.front ++ take size held;
        back = h.back;
        bytes =
            h.bytes
            ∙ ap (λ xs. h.front ++ (xs ++ h.back)) (sym (take-append-drop size held))
            ∙ simp append_assoc;
        read = omega (arith, h.read, length-append h.front (take size held), taken, le);
        write = omega (arith, h.write, length-append h.front (take size held), taken, rest, le);
        margin = omega (arith, h.margin, length-append h.front (take size held));
      })
      | inr whole ↦
          let all : length held ≤ size = ground (arith, readable) in
          let nothing : drop size held ≡ [] = drop-length held size all in
          let front_length = length-take b.prepend_size b.buffer in
          let before = Holds-length held b h in
          rw (whole, nothing)
            (record {
              front = take b.prepend_size b.buffer;
              back = drop b.prepend_size b.buffer;
              bytes = sym (take-append-drop b.prepend_size b.buffer);
              read = omega (arith, front_length, before, h.margin);
              write = omega (arith, front_length, before, h.margin);
              margin = omega (arith, front_length, before, h.margin);
            })
    ]

-- `consume` of at most the bytes that are to be read, on a valid buffer, leaves a valid buffer, and
-- takes that many of them from the front.
pub consume-Contains :
    (b : IoBuf) (size : ℕ)
    → IsValid b
    → size ≤ length (read_view b)
    → Contains (drop size (read_view b)) (consume size b)
consume-Contains b size v le = Holds-Contains (consume-Holds (IsValid-Holds v) size le)

-- `appendFormFd` before it appends the spare buffer.
abbrev spilled : List ℕ → IoBuf → IoBuf
spilled bytes b = record b {
  buffer = copy_to (take (writable_size b) bytes) b.write_index b.buffer;
  write_index = length (copy_to (take (writable_size b) bytes) b.write_index b.buffer);
}

spilled-Holds :
    {held : List ℕ} {b : IoBuf}
    → Holds held b
    → (bytes : List ℕ) → writable_size b < length bytes
    → Holds (held ++ take (writable_size b) bytes) (spilled bytes b)
unfolding move_write_index
spilled-Holds {held} {b} h bytes lt =
    let part = take (writable_size b) bytes in
    let v = Holds-IsValid h in
    let full : length (copy_to part b.write_index b.buffer) ≡ b.write_index + length part = omega (
      arith,
      lt,
      v.in_range,
      length-append (take b.write_index b.buffer)
          (part ++ drop (b.write_index + length part) b.buffer),
      length-append part (drop (b.write_index + length part) b.buffer),
      length-take b.write_index b.buffer,
      length-drop (b.write_index + length part) b.buffer,
      length-take (writable_size b) bytes,
    ) in
    subst
      (λ w.
        Holds (held ++ part)
          (record b { buffer = copy_to part b.write_index b.buffer; write_index = w }))
      (sym full) (written-Holds h part)

-- `appendFormFd` on a valid buffer leaves a valid buffer, in which all the bytes that the descriptor
-- delivers, also those that went to the spare buffer, stand behind those that were to be read.
pub append_from_fd-Contains :
    (b : IoBuf) (bytes : List ℕ)
    → IsValid b
    → Contains (read_view b ++ bytes) (append_from_fd bytes b)
unfolding append_from_fd
append_from_fd-Contains b bytes v =
    let h = IsValid-Holds v in
    let room = writable_size b in
    elim (Bool-cases (leb (length bytes) room)) [
      | inl fits ↦
          let e : take room bytes ≡ bytes = take-length bytes room (ground arith) in
          rw fits (
            subst
              (λ bs. Contains (read_view b ++ bytes) (
                move_write_index (length bytes)
                  (record b { buffer = copy_to bs b.write_index b.buffer })))
              (sym e) (Holds-Contains (written-Holds h bytes)))
      | inr spills ↦
          let all : (read_view b ++ take room bytes) ++ drop room bytes ≡ read_view b ++ bytes =
            append_assoc (read_view b) (take room bytes) (drop room bytes)
            ∙ ap (λ xs. read_view b ++ xs) (take-append-drop room bytes) in
          rw spills (
            subst (λ xs. Contains xs (append (drop room bytes) (spilled bytes b))) all
              (Holds-Contains
                (append-Holds (spilled-Holds h bytes (ground arith)) (drop room bytes))))
    ]

-- `prepend` on a valid buffer of at most as many bytes as stand in front of the read index puts
-- them in front of those that are to be read.
pub prepend-read_view :
    (b : IoBuf) (bytes : List ℕ)
    → IsValid b
    → length bytes ≤ b.read_index
    → read_view (prepend bytes b) ≡ bytes ++ read_view b
unfolding prepend
prepend-read_view b bytes v le =
    let at = b.read_index - length bytes in
    let back : at + length bytes ≡ b.read_index = omega arith in
    let in_front = length-take at b.buffer in
    let skipped : drop at (copy_to bytes at b.buffer) ≡ bytes ++ drop b.read_index b.buffer =
      drop-append (take at b.buffer) _ at (omega (arith, in_front, v.order, v.in_range))
      ∙ ap (λ n. bytes ++ drop n b.buffer) back in
    ap (take (b.write_index - at)) skipped
    ∙ take-append_ge bytes (drop b.read_index b.buffer) (b.write_index - at)
        (omega (arith, v.order, le))
    ∙ ap (λ n. bytes ++ take n (drop b.read_index b.buffer)) (omega (arith, v.order, le))
