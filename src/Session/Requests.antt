-- ===== src/Session/Requests.antt =====
-- A whole request that arrives in one read.
use storage_engine.Base.{
  ℕ, ◌≤◌, ◌<◌, ◌≡◌, refl, ap, ◌∙◌, subst, List, ◌∷◌, ◌++◌, length, take-length, some, leb, true,
  take, arith,
}
use storage_engine.Base.Int.{ℤ}
use storage_engine.DashTable.Segment.{Policy}
use storage_engine.Net.IoBuf.{
  IoBuf, read_view, writable_size, copy_to, move_write_index, append_from_fd,
}
use storage_engine.Net.IoBuf.Layout.{IsValid}
use storage_engine.Net.IoBuf.Queue.{Contains, append_from_fd-Contains}
use storage_engine.Net.Resp.{parse_resp}
use storage_engine.Net.Resp.Parse.{value, AllDigits, Bulks}
use storage_engine.Net.Resp.Commands.{command, parse_resp-command}
use storage_engine.Slice.Defs.{ObjectOps, DbContext}
use storage_engine.Commands.Handlers.{Slices}
use storage_engine.Session.{Session, received, do_read, dispatch, replies}

-- What `AsyncRead` and `hasWritten` leave, where the bytes have place.
filled-Contains :
    (b : IoBuf) (bytes : List ℕ)
    → IsValid b
    → length bytes ≤ writable_size b
    → Contains (read_view b ++ bytes) (
        move_write_index
          (length bytes)
          (record b { buffer = copy_to bytes b.write_index b.buffer }))
unfolding append_from_fd
filled-Contains b bytes valid fits =
    let room = writable_size b in
    let yes : leb (length bytes) room ≡ true = ground (arith, fits) in
    let whole : take room bytes ≡ bytes = take-length bytes room fits in
    let out = append_from_fd-Contains b bytes valid in
    subst
      (λ bs.
        Contains (read_view b ++ bytes) (
          move_write_index (length bytes)
            (record b { buffer = copy_to bs b.write_index b.buffer })))
      whole (rw (yes) at out)

module _ {ℓ} {K V : Type ℓ} (p : Policy) (ops : ObjectOps K V) (k₀ : K) (v₀ : V) (fuel : ℕ)
    (atoi : List ℕ → ℤ) (hash : List ℕ → ℕ) (size : ℕ) (cntx : DbContext) where
  -- One turn of the loop, where the bytes that were read before have had a reply, the receive buffer is
  -- valid, the bytes that arrive have place in it, and with them it holds a whole command of at least
  -- one element and any bytes behind it, and where the command's handler is defined and gives a reply:
  -- the turn is defined, that reply is all that it sends, the slices are those that the handler leaves,
  -- the buffer holds the bytes behind the command, and the next bytes may be read if the reply is not
  -- empty.
  pub do_read-request :
      (s : Session p ops) (c : ℕ) (cs : List ℕ)
      → s.dealt ≡ true
      → IsValid s.recv_buf
      → length (c ∷ cs) ≤ writable_size s.recv_buf
      → {items : List (List ℕ)} {bytes : List ℕ} → Bulks items bytes
      → (digits : List ℕ) → AllDigits digits
      → value 0 digits ≡ length items
      → 0 < length items
      → (rest : List ℕ) → read_view s.recv_buf ++ (c ∷ cs) ≡ command digits bytes ++ rest
      → (reply : List ℕ) (slices : Slices p ops)
      → dispatch p ops k₀ v₀ fuel atoi hash size cntx items s.slices ≡ some (reply, slices)
      → (s' : Session p ops) × (do_read p ops k₀ v₀ fuel atoi hash size cntx (received (c ∷ cs)) s
          ≡ some s')
        × (s'.sent ≡ s.sent ++ reply)
        × (s'.slices ≡ slices)
        × (s'.reading ≡ s.reading)
        × (s'.dealt ≡ replies reply)
        × Contains rest (s'.recv_buf)
  unfolding do_read
  do_read-request s c cs ready valid fits {items} {bytes} bulks digits all number some_item rest
        view reply slices handled =
      let b = s.recv_buf in
      let filled =
        move_write_index (length (c ∷ cs))
          (record b { buffer = copy_to (c ∷ cs) b.write_index b.buffer }) in
      let held = filled-Contains b (c ∷ cs) valid fits in
      let parsed =
        parse_resp-command bulks digits all rest filled (held.0) number some_item (held.1 ∙ view) in
      let e : dispatch p ops k₀ v₀ fuel atoi hash size cntx ((parse_resp filled).0) s.slices
          ≡ some (reply, slices) =
        ap (λ is. dispatch p ops k₀ v₀ fuel atoi hash size cntx is s.slices) (parsed.0) ∙ handled in
      (
        record s {
          recv_buf = (parse_resp filled).1;
          sent = s.sent ++ reply;
          dealt = replies reply;
          slices = slices;
        },
        rw (e, do_read, ready) refl,
        refl,
        refl,
        refl,
        refl,
        parsed.1,
      )
