-- ===== src/CharSelect/LocalAddress.antt =====
-- `char_select_is_ip_address_local` of src/char_select/eqp_char_select.c.
use Prim.Native.Nat.{bit_and, bit_or}
use eqp.Common.{
  ℕ, ◌+◌, ◌*◌, ◌/◌, ◌^◌, ◌<◌, ◌≡◌, ap, ◌∙◌, Bool, true, false, ◌&&◌, ◌||◌, ◌==◌, leb, if◌then◌else◌,
  arith,
}
use eqp.Common.Bits.{bit_and_low, bit_and_high, bit_and_mask}

unfoldable pub make_ip : (a b c d : ℕ) → ℕ
make_ip a b c d =
    bit_or
      (bit_or (bit_or (bit_and (a * 2 ^ 0) 0xff) (bit_and (b * 2 ^ 8) 0xff00))
        (bit_and (c * 2 ^ 16) 0xff0000))
      (bit_and (d * 2 ^ 24) 0xff000000)

-- The address is in network byte order: its first byte is the lowest.
unfoldable pub is_ip_address_local : ℕ → Bool
is_ip_address_local ip =
    if ip == make_ip 127 0 0 1
    then true
    else if bit_and ip 0x0000ffff == make_ip 192 168 0 0
    then true
    else if bit_and ip 0x000000ff == make_ip 10 0 0 0
    then true
    else if bit_and ip 0x0000f0ff == make_ip 172 16 0 0
    then true
    else false

-- The address a.b.c.d is local when it is 127.0.0.1, or one of 192.168.x.x, of 10.x.x.x, or from
-- 172.16.0.0 to 172.31.255.255.
pub is_ip_address_local_lem :
    (a b c d : ℕ)
    → a < 256
    → b < 256
    → c < 256
    → d < 256
    → is_ip_address_local (a + b * 2 ^ 8 + c * 2 ^ 16 + d * 2 ^ 24) ≡ (
        a == 127 && b == 0 && c == 0 && d == 1
        || (a == 192 && b == 168)
        || a == 10
        || (a == 172 && leb 16 b && leb b 31))
unfolding is_ip_address_local make_ip
is_ip_address_local_lem a b c d ha hb hc hd =
    let ip = a + b * 2 ^ 8 + c * 2 ^ 16 + d * 2 ^ 24 in
    let low16 : bit_and ip 0xffff ≡ a + b * 2 ^ 8 = bit_and_low 16 ip ∙ omega arith in
    let low8 : bit_and ip 0xff ≡ a = bit_and_low 8 ip ∙ omega arith in
    let nibble : bit_and (ip / 256) 0xf0 ≡ b / 16 * 16 =
      bit_and_high 4 (ip / 256) 15
      ∙ ap (λ t. t * 16) (bit_and_low 4 (ip / 256 / 16))
      ∙ omega arith in
    let mask : bit_and ip 0xf0ff ≡ b / 16 * 16 * 256 + a =
      bit_and_mask 8 ip 0xf0 ∙ omega (arith, nibble) in
    rw (low16, low8, mask) (ground arith)
