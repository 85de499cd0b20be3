-- ===== src/Commands/Registry.antt =====
-- `CommandRegistry` of src/command_layer/command_registry.hpp and command_registry.cpp: the commands that
-- the server knows, by their names. `H` is the type of the handlers.
use storage_engine.Base.{ℕ, ◌+◌, ◌-◌, List, [], ◌∷◌, Option, none, some, if◌then◌else◌}
use storage_engine.Base.Int.{ℤ, pos, negsuc}
use storage_engine.Commands.Handlers.{same_bytes}

pub record CommandId {ℓ} (H : Type ℓ) : Type ℓ where
  pub name : List ℕ
  pub arity : ℤ
  pub first_key : ℤ
  pub last_key : ℤ
  pub family : ℕ
  pub handler : H

-- `cmd_map_` is an association list; of `family_of_commands_` only its length counts.
pub record CommandRegistry {ℓ} (H : Type ℓ) : Type ℓ where
  pub cmd_map : List (List ℕ × CommandId H)
  pub families : ℕ

module _ {ℓ} {H : Type ℓ} where
  abbrev pub no_commands : CommandRegistry H
  no_commands = record { cmd_map = []; families = 0 }

  unfoldable pub lookup : List ℕ → List (List ℕ × CommandId H) → Option (CommandId H)
  lookup cmd [] = none
  lookup cmd ((name, id) ∷ rest) =
      let other = lookup cmd rest in if same_bytes cmd name then some id else other

  -- `Find`.
  abbrev pub find_command : List ℕ → CommandRegistry H → Option (CommandId H)
  find_command cmd r = lookup cmd r.cmd_map

  abbrev pub start_family : CommandRegistry H → CommandRegistry H
  start_family r = record r { families = r.families + 1 }

  -- `operator<<`: `emplace` keeps an entry that is there.
  unfoldable pub register : CommandId H → CommandRegistry H → CommandRegistry H
  unfolding lookup
  register id r = elim (find_command id.name r) [
    | some _ ↦ r
    | none ↦ record r { cmd_map = (id.name, record id { family = r.families - 1 }) ∷ r.cmd_map }
  ]

  -- `CI{...}.SetHandler(...)`.
  abbrev pub command_id : List ℕ → ℤ → ℤ → ℤ → H → CommandId H
  command_id name arity first last handler = record {
    name = name;
    arity = arity;
    first_key = first;
    last_key = last;
    family = 0;
    handler = handler;
  }

-- The handlers that the two families register.
pub data Handler : Type 0 where
  set_handler get_handler del_handler ping_handler exists_handler : Handler
  expire_handler ttl_handler client_handler shutdown_handler : Handler

-- `RegisterStringFamily`.
unfoldable pub register_string_family : CommandRegistry Handler → CommandRegistry Handler
unfolding register
register_string_family r =
    register (command_id (b'G' ∷ b'E' ∷ b'T' ∷ []) (pos 2) (pos 1) (pos 1) get_handler) (
      register (command_id (b'S' ∷ b'E' ∷ b'T' ∷ []) (negsuc 2) (pos 1) (pos 1) set_handler)
        (start_family r))

-- `RegisterGeneric`.
unfoldable pub register_generic : CommandRegistry Handler → CommandRegistry Handler
unfolding register
register_generic r =
    let r₁ =
      register (command_id (b'D' ∷ b'E' ∷ b'L' ∷ []) (negsuc 1) (pos 1) (negsuc 0) del_handler)
        (start_family r) in
    let r₂ =
      register (command_id (b'P' ∷ b'I' ∷ b'N' ∷ b'G' ∷ []) (negsuc 0) (pos 0) (pos 0) ping_handler)
        r₁ in
    let r₃ =
      register
        (command_id (b'E' ∷ b'X' ∷ b'I' ∷ b'S' ∷ b'T' ∷ b'S' ∷ []) (negsuc 1) (pos 1) (negsuc 0)
          exists_handler)
        r₂ in
    let r₄ =
      register
        (command_id (b'E' ∷ b'X' ∷ b'P' ∷ b'I' ∷ b'R' ∷ b'E' ∷ []) (negsuc 2) (pos 1) (pos 1)
          expire_handler)
        r₃ in
    let r₅ =
      register (command_id (b'T' ∷ b'T' ∷ b'L' ∷ []) (pos 2) (pos 1) (pos 1) ttl_handler) r₄ in
    let r₆ =
      register
        (command_id (b'C' ∷ b'L' ∷ b'I' ∷ b'E' ∷ b'N' ∷ b'T' ∷ []) (negsuc 3) (pos 0) (pos 0)
          client_handler)
        r₅ in
    register
      (command_id (b'S' ∷ b'H' ∷ b'U' ∷ b'T' ∷ b'D' ∷ b'O' ∷ b'W' ∷ b'N' ∷ []) (pos 1) (pos 0)
        (pos 0) shutdown_handler)
      r₆

-- What the server's constructor registers.
unfoldable pub commands : CommandRegistry Handler
unfolding register_string_family register_generic
commands = register_generic (register_string_family no_commands)
