-- ===== src/CharSelect/Client/Laws.antt =====
-- What clients cannot do: the handlers of src/char_select/char_select_client_trilogy.c.
use Prim.Native.Nat.{bit_or}
use eqp.Common.{
  ℕ, zero, suc, ◌*◌, ◌-◌, ◌^◌, ◌<◌, ◌≡◌, refl, ap, ◌∙◌, Bool, true, false, not, ◌&&◌, ◌||◌, some,
  List, [], ◌∷◌, length, leb, ◌==◌, if◌then◌else◌, get_elem?, get_or, Bool-cases, inl, inr, arith,
}
use eqp.Aligned.Defs.{
  Aligned, Outcome, ok, ◌>>=◌, advance, read_uint8, read_uint16, load, remaining,
}
use eqp.Packets.Struct.{start}
use eqp.CharSelect.Replies.{wear_change_of}
use eqp.CharSelect.Client.{
  Session, Action, Handler, answer_wear_change, reply, nothing, is_echo, recv_packet,
  handle_op_guild_list, handle_op_name_approval, handle_op_create_character,
  handle_op_delete_character, handle_op_wear_change, handle_op_enter, weapon_material,
}

-- A case of the switch.
pick :
    (b : Bool) (x y : Handler) (s : Session) (a : Aligned) (r : Outcome (Session × List Action))
    → x s a ≡ r
    → y s a ≡ r
    → (if b then x else y) s a ≡ r
pick true x y s a r hx hy = hx
pick false x y s a r hx hy = hy

-- A client without an authorisation gets nothing done by any packet but the login and the ones that
-- are echoed: nothing is read, sent or changed.
pub recv_packet_unauthed :
    (strtol : List ℕ → ℕ) (opcode : ℕ) (s : Session) (a : Aligned)
    → s.is_authed ≡ false
    → (opcode == 0x1858) ≡ false
    → is_echo opcode ≡ false
    → recv_packet strtol opcode s a ≡ ok (s, []) a
unfolding recv_packet handle_op_guild_list handle_op_name_approval handle_op_create_character
    handle_op_delete_character handle_op_wear_change handle_op_enter
recv_packet_unauthed strtol opcode s a h l e =
    let r : Outcome (Session × List Action) = ok (s, []) a in
    let go =
      λ (b : Bool) (x y : Handler) (hx : x s a ≡ r) (hy : y s a ≡ r). pick b x y s a r hx hy in
    rw (l, e)
      (go (opcode == 0x2192) handle_op_guild_list _ (rw h refl) (
        go (opcode == 0x208b) handle_op_name_approval _ (rw h refl) (
          go (opcode == 0x2049) handle_op_create_character _ (rw h refl) (
            go (opcode == 0x205a) handle_op_delete_character _ (rw h refl) (
              go (opcode == 0x2092) handle_op_wear_change _ (rw h refl)
                (go (opcode == 0x8001) handle_op_enter nothing (rw h refl) refl))))))

-- The answer to a request for the model of a weapon: none to a change of character or to an echo,
-- none for a place or a slot that is not there, and otherwise the material in the table.
abbrev pub wear_answer : Session → (slot index op flag : ℕ) → List Action
wear_answer s slot index op flag =
    if op == 0x7fff || flag == 0xb1 || leb 10 index || not (slot == 7 || slot == 8)
    then []
    else reply (wear_change_of slot (get_or (get_or s.weapon_materials index []) (slot - 7) 0)) ∷ []

get_elem?-get_or :
    {A : Type 0} (xs : List A) (i : ℕ) (d : A)
    → i < length xs
    → get_elem? xs i ≡ some (get_or xs i d)
get_elem?-get_or [] i d h = absurd (omega arith)
get_elem?-get_or (x ∷ xs) zero d h = refl
get_elem?-get_or (x ∷ xs) (suc i) d h = get_elem?-get_or xs i d (omega arith)

either : (a b : Bool) → (not a && not b) ≡ not (a || b)
either true b = refl
either false b = refl

admitted :
    (b c : Bool) (x y : Outcome (Session × List Action))
    → b ≡ true
    → c ≡ false
    → (if not b || c then x else y) ≡ y
admitted true true x y h k = absurd (cc)
admitted true false x y h k = refl
admitted false c x y h k = absurd (cc)

weapon_material_lem :
    (table : List (List ℕ)) (index slot : ℕ) (a : Aligned) {row : List ℕ} {m : ℕ}
    → get_elem? table index ≡ some row
    → get_elem? row (slot - 7) ≡ some m
    → weapon_material table index slot a ≡ ok m a
unfolding weapon_material
weapon_material_lem table index slot a h k = rw (weapon_material, h, k) refl

answer_wear_change_lem :
    (s : Session) (slot index op flag : ℕ) (a : Aligned)
    → length s.weapon_materials ≡ 10
    → ((i : ℕ) → i < 10 → length (get_or s.weapon_materials i []) ≡ 2)
    → answer_wear_change slot index op flag s a ≡ ok (s, wear_answer s slot index op flag) a
unfolding answer_wear_change
answer_wear_change_lem s slot index op flag a rows two =
    let row = get_or s.weapon_materials index [] in
    elim (Bool-cases (op == 0x7fff)) [
      | inl e ↦ rw e refl
      | inr e ↦ elim (Bool-cases (flag == 0xb1)) [
        | inl f ↦ rw (e, f) refl
        | inr f ↦ elim (Bool-cases (leb 10 index)) [
          | inl g ↦ rw (e, f, g) refl
          | inr g ↦ elim (Bool-cases (slot == 7 || slot == 8)) [
            | inl h ↦
                let there : get_elem? s.weapon_materials index ≡ some row =
                  get_elem?-get_or s.weapon_materials index [] (ground arith) in
                let two_ : length row ≡ 2 = two index (ground arith) in
                let cell : get_elem? row (slot - 7) ≡ some (get_or row (slot - 7) 0) =
                  get_elem?-get_or row (slot - 7) 0 (ground arith) in
                let outer : (not (slot == 7) && not (slot == 8)) ≡ false =
                  either (slot == 7) (slot == 8) ∙ ap not h in
                let found : weapon_material s.weapon_materials index slot a
                    ≡ ok (get_or row (slot - 7) 0) a =
                  weapon_material_lem s.weapon_materials index slot a there cell in
                rw (e, f, g, outer, h, ◌>>=◌, found) refl
            | inr h ↦
                let outer : (not (slot == 7) && not (slot == 8)) ≡ true =
                  either (slot == 7) (slot == 8) ∙ ap not h in
                rw (e, f, g, outer, h) refl
          ]
        ]
      ]
    ]

-- Whatever the sixteen bytes of the request, the table of ten times two materials is read inside.
pub handle_op_wear_change_lem :
    (s : Session) (b0 b1 b2 b3 slot index lo hi b8 b9 b10 b11 b12 flag b14 b15 : ℕ)
    → s.is_authed ≡ true
    → length s.weapon_materials ≡ 10
    → ((i : ℕ) → i < 10 → length (get_or s.weapon_materials i []) ≡ 2)
    → handle_op_wear_change s (
        start 16 (
          b0 ∷ b1 ∷ b2 ∷ b3 ∷ slot ∷ index ∷ lo ∷ hi ∷ b8 ∷ b9 ∷ b10 ∷ b11 ∷ b12 ∷ flag ∷ b14 ∷ b15
          ∷ []))
      ≡ ok
          (s, wear_answer s slot index (bit_or lo (hi * 2 ^ 8)) flag)
          (record {
            cursor = 14;
            length_ = 16;
            buffer =
                b0 ∷ b1 ∷ b2 ∷ b3 ∷ slot ∷ index ∷ lo ∷ hi ∷ b8 ∷ b9 ∷ b10 ∷ b11 ∷ b12 ∷ flag ∷ b14
                ∷ b15 ∷ [];
          })
unfolding handle_op_wear_change advance read_uint8 read_uint16 load remaining
handle_op_wear_change_lem s b0 b1 b2 b3 slot index lo hi b8 b9 b10 b11 b12 flag b14 b15 au rows
      two =
    let request =
      b0 ∷ b1 ∷ b2 ∷ b3 ∷ slot ∷ index ∷ lo ∷ hi ∷ b8 ∷ b9 ∷ b10 ∷ b11 ∷ b12 ∷ flag ∷ b14 ∷ b15
      ∷ [] in
    admitted s.is_authed false (nothing s (start 16 request)) _ au refl
    ∙ answer_wear_change_lem s slot index (bit_or lo (hi * 2 ^ 8)) flag
        (record { cursor = 14; length_ = 16; buffer = request }) rows two
