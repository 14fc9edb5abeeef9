-- ===== src/Dns.antt =====
-- engine/dns/dns_server.cpp: the packet code of DnsServer. A packet is the list of its bytes.
use appytizer_app_server.Base.{
  ℕ, zero, suc, ◌+◌, ◌*◌, ◌^◌, ◌%◌, bit_and, bit_or, Bool, ◌&&◌, ◌||◌, not, List, [], ◌∷◌, ◌++◌,
  Text, codes, length, get_or, take, drop, set, is_empty, ltb, ◌==◌, if◌then◌else◌, ends_with,
  lowercase, lower,
}
pub mod Names
pub mod Replies
pub mod Bounds
pub mod Server

-- kSiteSuffix
abbrev pub site_suffix : Text
site_suffix = codes ".test"

-- `(b[p] << 8) | b[p + 1]`, cast to 16 bits: on bytes the disjoint bits add up.
pub read16 : List ℕ → ℕ → ℕ
read16 b p =
    if ltb (p + 1) (length b) then (get_or b p 0 * 256 + get_or b (p + 1) 0) % 2 ^ 16 else 0

unfoldable pub ends_with_ci : Text → Text → Bool
unfolding lower
ends_with_ci value suffix = ends_with (lowercase suffix) (lowercase value)

-- The label that starts at `offset`, joined to the name with a dot.
abbrev pub extend_name : Text → List ℕ → ℕ → ℕ → Text
extend_name name packet offset len =
    (if is_empty name then name else name ++ codes ".") ++ take len (drop offset packet)

-- The `while` loop, with the offset and the name as its variables. Each round moves the offset
-- forward, so the packet's length bounds the rounds.
pub decode_loop : ℕ → List ℕ → ℕ → Text → Text × ℕ
decode_loop zero packet offset name = ([], offset)
decode_loop (suc fuel) packet offset name =
    let len = get_or packet offset 0 in
    let start = offset + 1 in
    let rest = decode_loop fuel packet (start + len) (extend_name name packet start len) in
    if ltb offset (length packet)
    then (if len == 0
        then (name, start)
        else if not (bit_and len 0xc0 == 0) || ltb (length packet) (start + len)
        then ([], start)
        else rest)
    else ([], offset)

-- The name, and the offset behind what was read.
pub decode_question_name : List ℕ → ℕ → Text × ℕ
unfolding decode_loop
decode_question_name packet offset = decode_loop (suc (length packet)) packet offset []

abbrev pub answer_record : List ℕ
answer_record = 0xc0 ∷ 0x0c ∷ 0 ∷ 1 ∷ 0 ∷ 1 ∷ 0 ∷ 0 ∷ 0 ∷ 5 ∷ 0 ∷ 4 ∷ 127 ∷ 0 ∷ 0 ∷ 1 ∷ []

-- The bytes of the header that the response changes: flags, and the three counts behind QDCOUNT.
abbrev pub reply_header : List ℕ → Bool → Bool → List ℕ → List ℕ
reply_header query ours answered out =
    let flags = set out 2 (bit_or 0x80 (bit_and (get_or query 2 0) 0x01)) in
    let rcode = set flags 3 (if ours then 0x80 else 0x83) in
    let count = set (set rcode 6 0) 7 (if answered then 1 else 0) in
    set (set (set (set count 11 0) 10 0) 9 0) 8 0

-- The part of make_response behind the decoded name.
pub respond : List ℕ → Text → ℕ → List ℕ
unfolding ends_with_ci read16
respond query name position =
    let type = read16 query position in
    let ours = ends_with_ci name site_suffix in
    let answered = ours && (type == 1) in
    let out = reply_header query ours answered (take (position + 4) query) in
    if answered then out ++ answer_record else out

pub make_response : List ℕ → List ℕ
unfolding decode_question_name read16 respond
make_response query =
    let (name, position) = decode_question_name query 12 in
    if ltb (length query) 12 || not (read16 query 4 == 1)
    then []
    else if is_empty name || ltb (length query) (position + 4)
    then []
    else respond query name position

abbrev sample_query : List ℕ
sample_query =
    7 ∷ 9 ∷ 1 ∷ 0 ∷ 0 ∷ 1 ∷ 0 ∷ 0 ∷ 0 ∷ 0 ∷ 0 ∷ 0 ∷ 1 ∷ b'a' ∷ 4 ∷ b't' ∷ b'E' ∷ b's' ∷ b't' ∷ 0 ∷ 0
    ∷ 1 ∷ 0 ∷ 1 ∷ []

sample_response : List ℕ
unfolding make_response
sample_response = make_response sample_query
