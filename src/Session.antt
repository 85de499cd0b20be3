-- ===== src/Session.antt =====
-- `RedisSession` of src/network/redis_server.hpp: the loop that reads, parses, looks up and invokes. A
-- handler's hop to its shard, and the sending of its reply, are taken to be over before the next read.
-- `none` where the program stops at an assertion, as the default build does, or is undefined.
pub mod Requests
use storage_engine.Base.{
  ℕ, ◌+◌, List, [], ◌∷◌, ◌++◌, length, Option, none, some, Bool, true, false, if◌then◌else◌,
}
use storage_engine.Base.Int.{ℤ}
use storage_engine.DashTable.Segment.{Policy}
use storage_engine.Net.IoBuf.{IoBuf, copy_to, move_write_index}
use storage_engine.Net.Resp.{parse_resp}
use storage_engine.Slice.Defs.{ObjectOps, DbContext}
use storage_engine.Commands.Generic.{ping}
use storage_engine.Commands.Handlers.{
  Slices, Reply, error_bytes, answer_bytes, cmd_del, cmd_exists, cmd_get, cmd_set, expire, ttl,
  client_info,
}
use storage_engine.Commands.Registry.{
  Handler, set_handler, get_handler, del_handler, ping_handler, exists_handler, expire_handler,
  ttl_handler, client_handler, shutdown_handler, find_command, commands,
}
use storage_engine.Transactions.{Transaction, init_by_args}

-- What `AsyncRead` gives: bytes, at most as many as there is place for; the end; or an error.
pub data ReadResult : Type 0 where
  received : List ℕ → ReadResult
  closed failed : ReadResult

-- The receive buffer, what was sent so far, whether the loop goes on, and
-- `debug_com_deal_one_Com`, which says that the last command has had its reply; and the store.
pub record Session {ℓ} {K V : Type ℓ} (p : Policy) (ops : ObjectOps K V) : Type ℓ where
  pub recv_buf : IoBuf
  pub sent : List ℕ
  pub reading : Bool
  pub dealt : Bool
  pub slices : Slices p ops

-- Whether anything is sent: `SendImp` sets `debug_com_deal_one_Com` again.
unfoldable pub replies : List ℕ → Bool
replies [] = false
replies (_ ∷ _) = true

module _ {ℓ} {K V : Type ℓ} (p : Policy) (ops : ObjectOps K V) (k₀ : K) (v₀ : V) (fuel : ℕ)
    (atoi : List ℕ → ℤ) (hash : List ℕ → ℕ) (size : ℕ) where
  -- `Invoke` of the handler. SHUTDOWN stops the server, which has no reply.
  unfoldable pub invoke : Handler → List (List ℕ) → Transaction → Slices p ops → Reply p ops
  unfolding cmd_del cmd_exists cmd_get cmd_set expire ttl ping client_info answer_bytes
  invoke set_handler args t slices = cmd_set p ops k₀ v₀ fuel t slices
  invoke get_handler args t slices = cmd_get p ops t slices
  invoke del_handler args t slices = cmd_del p ops t slices
  invoke ping_handler args t slices = some (answer_bytes (ping args), slices)
  invoke exists_handler args t slices = cmd_exists p ops t slices
  invoke expire_handler args t slices = expire p ops atoi t slices
  invoke ttl_handler args t slices = ttl p ops t slices
  invoke client_handler args t slices = some (answer_bytes (client_info args), slices)
  invoke shutdown_handler args t slices = some ([], slices)

  -- The body of the loop after a command was parsed, at the context's time.
  unfoldable pub dispatch : DbContext → List (List ℕ) → Slices p ops → Reply p ops
  unfolding invoke commands init_by_args
  dispatch cntx [] slices = some ([], slices)
  dispatch cntx (name ∷ args) slices = elim (find_command name commands) [
    | none ↦ some (error_bytes, slices)
    | some ci ↦ invoke ci.handler (name ∷ args) (init_by_args hash size cntx (name ∷ args)) slices
  ]

  -- One turn of `DoRead`. The assertion fails where the bytes of before have had no reply.
  unfoldable pub do_read : DbContext → ReadResult → Session p ops → Option (Session p ops)
  unfolding dispatch parse_resp move_write_index replies
  do_read cntx closed s = some (record s { reading = false })
  do_read cntx failed s = some s
  do_read cntx (received []) s = some (record s { reading = false })
  do_read cntx (received (c ∷ cs)) s =
      let bytes = c ∷ cs in
      let filled = record s.recv_buf {
        buffer = copy_to bytes s.recv_buf.write_index s.recv_buf.buffer;
      } in
      let (items, rest) = parse_resp (move_write_index (length bytes) filled) in
      let turn : Option (Session p ops) = elim (dispatch cntx items s.slices) [
        | none ↦ none
        | some (reply, slices) ↦ some (record s {
          recv_buf = rest;
          sent = s.sent ++ reply;
          dealt = replies reply;
          slices = slices;
        })
      ] in
      if s.dealt then turn else none
