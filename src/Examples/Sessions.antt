-- ===== src/Examples/Sessions.antt =====
-- Requests that arrive at a session, and the keys that DEL sees.
use storage_engine.Base.{
  ℕ, ◌≡◌, refl, true, List, [], ◌∷◌, ◌++◌, length, replicate, some, arith, update,
}
use storage_engine.Base.Int.{ℤ, pos}
use storage_engine.Net.IoBuf.{IoBuf}
use storage_engine.Net.IoBuf.Layout.{IsValid}
use storage_engine.Net.IoBuf.Queue.{Contains}
use storage_engine.Net.Resp.Parse.{value, crlf, bulk, Bulks, no_more, more}
use storage_engine.Net.Resp.Commands.{command}
use storage_engine.Commands.Generic.{ping}
use storage_engine.Commands.Handlers.{Slices, cmd_del, cmd_exists, answer_bytes, same_bytes}
use storage_engine.Commands.Registry.{
  commands, register_string_family, register_generic, register, lookup,
}
use storage_engine.Transactions.{init_by_args, shard}
use storage_engine.Transactions.Handlers.{cmd_exists-cmd_del}
use storage_engine.Session.{Session, received, do_read, dispatch, invoke, replies}
use storage_engine.Session.Requests.{do_read-request}
use storage_engine.Net.Reply.{build_integer, build_simple_string}
use storage_engine.Slice.Defs.{DbSlice}
use storage_engine.Slice.Keys.{entries}
use storage_engine.Commands.Keys.{Deletes}
use storage_engine.Examples.Segments.{tiny, tiny-IsPolicy}
use storage_engine.Examples.Stores.{ops, ops-IsTextual, context, store, slice, slice-HasTable}

abbrev ping_name : List ℕ
ping_name = b'P' ∷ b'I' ∷ b'N' ∷ b'G' ∷ []

abbrev ping_bulk : List ℕ
ping_bulk = b'$' ∷ ((b'4' ∷ []) ++ (crlf ++ (ping_name ++ crlf)))

ping-Bulks : Bulks (ping_name ∷ []) (ping_bulk ++ [])
unfolding value
ping-Bulks = more (bulk ping_name (b'4' ∷ []) (refl, tt) refl) no_more

abbrev all_slices : Slices tiny ops
all_slices = λ _. slice

abbrev room : IoBuf
room = record { buffer = replicate 16 0; prepend_size = 0; read_index = 0; write_index = 0 }

room-IsValid : IsValid room
room-IsValid = record { margin = omega arith; order = omega arith; in_range = omega arith }

abbrev quiet : Session tiny ops
quiet = record { recv_buf = room; sent = []; reading = true; dealt = true; slices = all_slices }

abbrev no_number : List ℕ → ℤ
no_number _ = pos 0

abbrev by_length : List ℕ → ℕ
by_length w = length w

abbrev pong : List ℕ
pong = answer_bytes (ping (ping_name ∷ []))

ping-dispatch :
    dispatch tiny ops 0 0 1 no_number by_length 2 context (ping_name ∷ []) all_slices
    ≡ some (pong, all_slices)
unfolding dispatch invoke commands register_string_family register_generic register lookup
    same_bytes
ping-dispatch = refl

do_read-request_example :
    (s' : Session tiny ops) × (do_read tiny ops 0 0 1 no_number by_length 2 context
        (received (command (b'1' ∷ []) (ping_bulk ++ [])))
        quiet
      ≡ some s')
    × (s'.sent ≡ [] ++ pong)
    × (s'.slices ≡ all_slices)
    × (s'.reading ≡ true)
    × (s'.dealt ≡ true)
    × Contains [] (s'.recv_buf)
unfolding value replies answer_bytes ping build_simple_string
do_read-request_example =
    do_read-request tiny ops 0 0 1 no_number by_length 2 context quiet b'*'
      ((b'1' ∷ []) ++ (crlf ++ (ping_bulk ++ []))) refl room-IsValid (omega arith) ping-Bulks
      (b'1' ∷ []) (refl, tt) refl (omega arith) [] refl pong all_slices ping-dispatch

-- DEL and EXISTS of the keys 6 and 5.
cmd_exists-cmd_del_example :
    let many = init_by_args by_length 2 context (ping_name ∷ (6 ∷ []) ∷ (5 ∷ []) ∷ []) in
    let n = entries tiny tiny-IsPolicy ops ops-IsTextual (6 ∷ []) store in
    (cmd_exists tiny ops many all_slices ≡ some (build_integer (pos n), all_slices))
    × ((s' : DbSlice ℕ ℕ) × (cmd_del tiny ops many all_slices
          ≡ some (build_integer (pos n), update all_slices (shard by_length 2 (6 ∷ [])) s'))
        × Deletes tiny tiny-IsPolicy ops ops-IsTextual context ((6 ∷ []) ∷ []) store s')
cmd_exists-cmd_del_example =
    cmd_exists-cmd_del tiny tiny-IsPolicy ops ops-IsTextual by_length 2 context ping_name (6 ∷ [])
      ((5 ∷ []) ∷ []) all_slices store slice-HasTable
