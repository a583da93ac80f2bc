-- ===== src/CharSelect/Client.antt =====
-- What a client may ask of the server: the handlers of src/char_select/char_select_client_trilogy.c,
-- less the creation of a character.
pub mod Laws
use eqp.Common.{
  ℕ, zero, suc, ◌+◌, ◌-◌, ◌*◌, ◌%◌, ◌^◌, Bool, true, false, not, ◌&&◌, ◌||◌, Option, none, some,
  List, [], ◌∷◌, length, ltb, leb, ◌==◌, if◌then◌else◌, drop, take, get_elem?,
}
use eqp.Aligned.Defs.{
  Aligned, Outcome, ok, fault, threw, M, ◌>>=◌, pure, advance, advance_null_terminator, read_uint8,
  read_uint16, read_uint32, remaining,
}
use eqp.Packets.Struct.{sizeof, sizeof_field}
use eqp.Packets.Structs.CharSelect.{wear_change}
use eqp.Packets.Structs.PlayerProfile.{player_profile_fields}
use eqp.CharSelect.Replies.{Reply, wear_change_of, guild_list_of}

-- Of `CharSelectClient` what the handlers read and set. The session key that is kept has at most 31 bytes.
pub record Session : Type 0 where
  pub is_authed : Bool
  pub is_name_approved : Bool
  pub account_id : ℕ
  pub session_key : List ℕ
  pub weapon_materials : List (List ℕ)

-- What is set off: a reply, a packet of no bytes, the search for an authorisation, and the calls that
-- go on to the database and to the zones.
pub data Action : Type 0 where
  reply : Reply → Action
  echo : ℕ → Action
  handle_unauthed_client : Action
  query_name_taken : List ℕ → Action
  delete_by_name : List ℕ → Action
  zone_in_request : List ℕ → Action
  create_character : Action

-- The handler's effect: the session after it, and the actions.
abbrev pub Handler : Type 0
Handler = Session → M (Session × List Action)

abbrev pub nothing : Handler
nothing s = pure (s, [])

abbrev pub act : Action → Handler
act x s = pure (s, x ∷ [])

-- A text from the cursor on, up to its terminator; without one it is read past the memory.
abbrev pub text_of : List ℕ → Option (List ℕ)
text_of [] = none
text_of (b ∷ bs) =
    let rest = text_of bs in
    if b == 0 then some [] else elim rest [ none ↦ none | some cs ↦ some (b ∷ cs) ]

unfoldable pub current_text : M (List ℕ)
current_text a = elim (text_of (drop a.cursor a.buffer)) [ none ↦ fault | some t ↦ ok t a ]

-- `strtol` is the C library's, on the text behind "LS#".
unfoldable pub handle_op_login_info : (List ℕ → ℕ) → Handler
handle_op_login_info strtol s a =
    if remaining a == 0
    then nothing s a
    else (current_text >>= λ account. advance_null_terminator >>= λ _. λ b.
          if remaining b == 0 || ltb (length account) 4
          then nothing s b
          else (current_text >>= λ session_key. pure (
            record s {
              account_id = strtol (drop 3 account) % 2 ^ 32;
              session_key = take 31 session_key;
            },
            handle_unauthed_client ∷ [],
          ))
              b)
        a

unfoldable pub handle_op_guild_list : Handler
handle_op_guild_list s a = if not s.is_authed then nothing s a else act (reply guild_list_of) s a

unfoldable pub handle_op_name_approval : Handler
handle_op_name_approval s a =
    if not s.is_authed || ltb (remaining a) 40
    then nothing s a
    else (current_text >>= λ name. advance 32 >>= λ _.
          read_uint32 >>= λ race. read_uint32 >>= λ class_. act (query_name_taken name) s)
        a

-- `cs_client_trilogy_on_character_name_checked`, with the byte that is sent.
unfoldable pub on_character_name_checked : Bool → Session → Session × ℕ
on_character_name_checked taken s =
    if not taken then (record s { is_name_approved = true }, 1) else (s, 0)

-- `cs_client_trilogy_send_char_create_failure`, with the byte that is sent.
unfoldable pub send_char_create_failure : Session → Session × ℕ
send_char_create_failure s = (record s { is_name_approved = false }, 0)

-- The guard of `cs_trilogy_handle_op_create_character`.
unfoldable pub handle_op_create_character : Handler
handle_op_create_character s a =
    if not s.is_authed || not s.is_name_approved || ltb (remaining a) (sizeof player_profile_fields)
    then nothing s a
    else act create_character s a

unfoldable pub handle_op_delete_character : Handler
handle_op_delete_character s a =
    if not s.is_authed || ltb (remaining a) 2
    then nothing s a
    else (current_text >>= λ name. act (delete_by_name name) s) a

-- `client->weaponMaterialsTrilogy[index][slot - 7]`
unfoldable pub weapon_material : List (List ℕ) → ℕ → ℕ → M ℕ
weapon_material table index slot a = elim (get_elem? table index) [
  | none ↦ fault
  | some row ↦ elim (get_elem? row (slot - 7)) [ none ↦ fault | some m ↦ ok m a ]
]

-- What is done about the fields of the request.
unfoldable pub answer_wear_change : (slot index op flag : ℕ) → Handler
answer_wear_change slot index op flag s =
    if not (op == 0x7fff) && not (flag == 0xb1)
    then (if leb 10 index || not (slot == 7) && not (slot == 8)
        then nothing s
        else (weapon_material s.weapon_materials index slot >>= λ m.
            act (reply (wear_change_of slot m)) s))
    else nothing s

unfoldable pub handle_op_wear_change : Handler
handle_op_wear_change s a =
    if not s.is_authed || ltb (remaining a) (sizeof wear_change)
    then nothing s a
    else (advance 4 >>= λ _. read_uint8 >>= λ slot. read_uint8 >>= λ index. read_uint16 >>= λ op.
          advance (4 + 1) >>= λ _. read_uint8 >>= λ flag. answer_wear_change slot index op flag s)
        a

unfoldable pub handle_op_enter : Handler
handle_op_enter s a =
    if not s.is_authed || ltb (remaining a) 2
    then nothing s a
    else (current_text >>= λ name. act (zone_in_request name) s) a

-- The packets that are sent back as they came.
abbrev pub is_echo : ℕ → Bool
is_echo opcode =
    opcode == 0x2023 || opcode == 0x80a9 || opcode == 0xab00 || opcode == 0xac00 || opcode == 0xad00

-- `client_recv_packet_trilogy`
unfoldable pub recv_packet : (List ℕ → ℕ) → ℕ → Handler
recv_packet strtol opcode =
    if opcode == 0x1858
    then handle_op_login_info strtol
    else if opcode == 0x2192
    then handle_op_guild_list
    else if opcode == 0x208b
    then handle_op_name_approval
    else if opcode == 0x2049
    then handle_op_create_character
    else if opcode == 0x205a
    then handle_op_delete_character
    else if opcode == 0x2092
    then handle_op_wear_change
    else if opcode == 0x8001
    then handle_op_enter
    else if is_echo opcode
    then act (echo opcode)
    else nothing
