-- ===== src/Net/IoBuf/Layout.antt =====
-- The three parts of a byte buffer: what was read, what is to be read, and the room behind.
use storage_engine.Base.{
  ℕ, ◌+◌, ◌-◌, ◌≤◌, ◌≡◌, sym, ap, ◌∙◌, List, ◌++◌, ltb, length, take, drop, replicate,
  length-append, length-take, length-drop, length-replicate, take-append, drop-append,
  take-append_ge, take-append-drop, Bool-cases, inl, inr, arith,
}
use mathlib.Core.List.{append_assoc}
use storage_engine.Net.IoBuf.{
  IoBuf, readable_size, writable_size, prependable_size, read_view, resize, reuse_prependable_space,
  expend, ensure_appendable,
}

-- What `check_index_validity` asserts, and that the write index is in the vector.
pub record IsValid (b : IoBuf) : Type 0 where
  pub margin : b.prepend_size ≤ b.read_index
  pub order : b.read_index ≤ b.write_index
  pub in_range : b.write_index ≤ length b.buffer

-- The bytes `held` are to be read.
pub record Holds (held : List ℕ) (b : IoBuf) : Type 0 where
  pub front : List ℕ
  pub back : List ℕ
  pub bytes : b.buffer ≡ front ++ (held ++ back)
  pub read : b.read_index ≡ length front
  pub write : b.write_index ≡ length front + length held
  pub margin : b.prepend_size ≤ length front

length-three : (xs ys zs : List ℕ) → length (xs ++ (ys ++ zs)) ≡ length xs + length ys + length zs
length-three xs ys zs = omega (arith, length-append xs (ys ++ zs), length-append ys zs)

pub Holds-length :
    (held : List ℕ) (b : IoBuf)
    → (h : Holds held b) → length b.buffer ≡ length h.front + length held + length h.back
Holds-length held b h = ap length h.bytes ∙ length-three h.front held h.back

pub Holds-IsValid : {held : List ℕ} {b : IoBuf} → Holds held b → IsValid b
Holds-IsValid {held} {b} h = record {
  margin = omega (arith, h.margin, h.read);
  order = omega (arith, h.read, h.write);
  in_range = omega (arith, h.write, Holds-length held b h);
}

pub Holds-read_view : {held : List ℕ} {b : IoBuf} → Holds held b → read_view b ≡ held
Holds-read_view {held} {b} h =
    let size : readable_size b ≡ length held = omega (arith, h.read, h.write) in
    let rest : drop b.read_index b.buffer ≡ held ++ h.back =
      ap (drop b.read_index) h.bytes ∙ drop-append h.front (held ++ h.back) b.read_index h.read in
    ap (take (readable_size b)) rest ∙ take-append held h.back (readable_size b) size

pub IsValid-Holds : {b : IoBuf} → IsValid b → Holds (read_view b) b
IsValid-Holds {b} v =
    let rest = drop b.read_index b.buffer in
    let front_length = length-take b.read_index b.buffer in
    let rest_length = length-drop b.read_index b.buffer in
    let view_length = length-take (readable_size b) rest in
    record {
      front = take b.read_index b.buffer;
      back = drop (readable_size b) rest;
      bytes =
          sym (take-append-drop b.read_index b.buffer)
          ∙ ap (λ xs. take b.read_index b.buffer ++ xs)
              (sym (take-append-drop (readable_size b) rest));
      read = omega (arith, front_length, v.order, v.in_range);
      write = omega (arith, front_length, rest_length, view_length, v.order, v.in_range);
      margin = omega (arith, front_length, v.margin, v.order, v.in_range);
    }

-- Moving the bytes to the front keeps them.
pub reuse-Holds :
    {held : List ℕ} {b : IoBuf} → Holds held b → Holds held (reuse_prependable_space b)
unfolding reuse_prependable_space
reuse-Holds {held} {b} h =
    let size : readable_size b ≡ length held = omega (arith, h.read, h.write) in
    let front_length = length-take b.prepend_size b.buffer in
    let whole = Holds-length held b h in
    record {
      front = take b.prepend_size b.buffer;
      back = drop (b.prepend_size + length (read_view b)) b.buffer;
      bytes =
          ap
            (λ xs.
              take b.prepend_size b.buffer
              ++ (xs ++ drop (b.prepend_size + length (read_view b)) b.buffer))
            (Holds-read_view h);
      read = omega (arith, front_length, whole, h.margin);
      write = omega (arith, front_length, whole, h.margin, size);
      margin = omega (arith, front_length, whole, h.margin);
    }

-- A vector that is made as long as the bytes need, or longer, keeps them.
pub resize-Holds :
    {held : List ℕ} {b : IoBuf}
    → Holds held b
    → (n : ℕ) → b.write_index ≤ n
    → Holds held (record b { buffer = resize n b.buffer })
resize-Holds {held} {b} h n le =
    let fill : List ℕ = replicate (n - length b.buffer) 0 in
    let rest = n - length h.front - length held in
    let cut : take n b.buffer ≡ h.front ++ (held ++ take rest h.back) =
      ap (take n) h.bytes
      ∙ take-append_ge h.front (held ++ h.back) n (omega (arith, h.write, le))
      ∙ ap (λ xs. h.front ++ xs)
          (take-append_ge held h.back (n - length h.front) (omega (arith, h.write, le))) in
    record {
      front = h.front;
      back = take rest h.back ++ fill;
      bytes = ap (λ xs. xs ++ fill) cut ∙ simp append_assoc;
      read = h.read;
      write = h.write;
      margin = h.margin;
    }

pub length-resize : (n : ℕ) (xs : List ℕ) → length (resize n xs) ≡ n
length-resize n xs = omega (
  arith,
  length-append (take n xs) (replicate (n - length xs) 0),
  length-take n xs,
  length-replicate {A = ℕ} (n - length xs) 0,
)

length-reuse :
    {held : List ℕ} {b : IoBuf}
    → Holds held b
    → length ((reuse_prependable_space b).buffer) ≡ length b.buffer
unfolding reuse_prependable_space
length-reuse {held} {b} h =
    let whole = Holds-length held b h in
    let view = ap length (Holds-read_view h) in
    omega (
      arith,
      whole,
      view,
      h.margin,
      length-three (take b.prepend_size b.buffer) (read_view b)
          (drop (b.prepend_size + length (read_view b)) b.buffer),
      length-take b.prepend_size b.buffer,
      length-drop (b.prepend_size + length (read_view b)) b.buffer,
    )

-- There is room for `size` bytes more.
abbrev pub HasRoom : ℕ → IoBuf → Type 0
HasRoom size b = b.write_index + size ≤ length b.buffer

pub expend-Holds :
    {held : List ℕ} {b : IoBuf}
    → Holds held b
    → (size : ℕ) → Holds held (expend size b) × HasRoom size (expend size b)
unfolding expend
expend-Holds {held} {b} h size =
    let moved = reuse_prependable_space b in
    let moved_h = reuse-Holds h in
    let whole = length-reuse h in
    let before = Holds-length held b h in
    elim (Bool-cases (ltb (size + b.prepend_size) (writable_size b + prependable_size b))) [
      | inl fits ↦ rw fits (
        moved_h,
        unfold reuse_prependable_space in ground (arith, whole, h.read, h.write, before, h.margin),
      )
      | inr short ↦ rw short (
        resize-Holds moved_h (moved.write_index + size) (omega arith),
        omega (arith, length-resize (moved.write_index + size) (moved.buffer)),
      )
    ]

pub ensure_appendable-Holds :
    {held : List ℕ} {b : IoBuf}
    → Holds held b
    → (size : ℕ) → Holds held (ensure_appendable size b) × HasRoom size (ensure_appendable size b)
unfolding ensure_appendable
ensure_appendable-Holds {held} {b} h size =
    let v = Holds-IsValid h in
    elim (Bool-cases (ltb (writable_size b) size)) [
      | inl short ↦ rw short (expend-Holds h size)
      | inr room ↦ rw room (h, ground (arith, v.in_range))
    ]
