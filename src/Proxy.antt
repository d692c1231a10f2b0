-- ===== src/Proxy.antt =====
-- The sticky reverse proxy of src/bin/malkuth/proxy.rs: the consistent-hash ring, the sticky cache, and
-- the search for a backend that connects. An address, of which the code uses equality only, is a number;
-- `Instant::now()` is an argument wherever it is read. Points with equal hashes keep their order here,
-- where `sort_unstable_by_key` leaves it open. A lock is never poisoned: nothing panics under one.
pub mod Rotation
pub mod Sorting
pub mod Routing
pub mod Stability
pub mod Serving
pub mod Upstream
pub mod Sticky
mod Tests
use malkuth.Prelude.{
  ltb, leb, eqb, if◌then◌else◌, ltb→lt, lt→ltb, le→ltb, ltb→le, leb→le, le→leb, eqb_iff, tests,
  Bool-cases, Option-cases, is_some, Key, ℕ_key, string_key, ◌==◌, eq_iff, eq_refl, ne→beq, length,
  get_elem?, take, drop, retain, any, all, position, length-append, length-take, length-drop,
  length-retain, take_all, set, count_by, count_by-append, count_by-reverse, count_by-retain,
  is_blank, is_ws, byte_len, is_char_boundary, prefix, truncate, floor_boundary, len_utf8,
  floor_boundary-is_char_boundary, floor_boundary-le, byte_len-prefix, codes, trim, trim_start,
  trim_end, is_empty, reverse-cons, reverse-reverse, In, All, All-append, All-retain, retain-All,
  Dict, get, insert, remove, adjust, get-insert, get-remove, get-adjust, get-insert_self, Result,
  ok, err, ◌>>=◌, ◌>>◌, ℕ, zero, suc, ◌+◌, ◌-◌, ◌*◌, ◌/◌, ◌%◌, ◌^◌, ◌≤◌, ◌<◌, min, max, String, ◌≡◌,
  refl, sym, ap, subst, ◌∙◌, ◌≢◌, ◌↔◌, ◌⊎◌, inl, inr, Bool, true, false, not, ◌&&◌, ◌||◌, Option,
  none, some, List, [], ◌∷◌, ◌++◌, map, reverse, append-nil, append_assoc, arith,
}
use Prim.Native.Nat.{bit_xor}
use Prim.Native.Char.{code}

abbrev pub SocketAddr : Type 0
SocketAddr = ℕ

abbrev pub vnodes : ℕ
vnodes = 160

-- The UTF-8 bytes of a text.
unfoldable pub utf8 : ℕ → List ℕ
utf8 c =
    if ltb c 0x80
    then c ∷ []
    else if ltb c 0x800
    then (0xc0 + c / 64) ∷ (0x80 + c % 64) ∷ []
    else if ltb c 0x10000
    then (0xe0 + c / 4096) ∷ (0x80 + c / 64 % 64) ∷ (0x80 + c % 64) ∷ []
    else (0xf0 + c / 262144) ∷ (0x80 + c / 4096 % 64) ∷ (0x80 + c / 64 % 64) ∷ (0x80 + c % 64) ∷ []

unfoldable pub as_bytes : String → List ℕ
unfolding utf8
as_bytes String.[] = []
as_bytes (String.◌∷◌ c s) = utf8 (code c) ++ as_bytes s

-- The decimal digits of a number below 1000, as `format!` prints it.
unfoldable pub decimal : ℕ → List ℕ
decimal n =
    (if ltb n 100 then [] else (48 + n / 100) ∷ [])
    ++ (if ltb n 10 then [] else (48 + n / 10 % 10) ∷ [])
    ++ (48 + n % 10) ∷ []

-- One byte of FNV-1a, on 64 bits.
unfoldable pub hash_byte : ℕ → ℕ → ℕ
hash_byte h b = bit_xor h b * 0x100000001b3 % 2 ^ 64

unfoldable pub hash_bytes : ℕ → List ℕ → ℕ
unfolding hash_byte
hash_bytes h [] = h
hash_bytes h (b ∷ bs) = hash_bytes (hash_byte h b) bs

unfoldable pub hash64 : List ℕ → ℕ
unfolding hash_bytes
hash64 bytes = hash_bytes 0xcbf29ce484222325 bytes

pub record Backend : Type 0 where
  pub addr : SocketAddr
  pub id : String

pub record Ring : Type 0 where
  pub points : List (ℕ × ℕ)
  pub backends : List Backend

-- The virtual nodes of a backend from `vn` on, each with the label `i`, which is its index in the source.
unfoldable pub vnode_points {ℓ} : {A : Type ℓ} → Backend → A → ℕ → ℕ → List (ℕ × A)
unfolding hash64 as_bytes decimal
vnode_points b i vn zero = []
vnode_points b i vn (suc left) =
    (hash64 (as_bytes b.id ++ b'/' ∷ decimal vn), i) ∷ vnode_points b i (suc vn) left

unfoldable pub all_points : ℕ → List Backend → List (ℕ × ℕ)
unfolding vnode_points
all_points i [] = []
all_points i (b ∷ bs) = vnode_points b i 0 vnodes ++ all_points (suc i) bs

unfoldable pub insert_point {ℓ} : {A : Type ℓ} → ℕ → A → List (ℕ × A) → List (ℕ × A)
insert_point h a [] = (h, a) ∷ []
insert_point h a ((k, b) ∷ rest) =
    if leb h k then (h, a) ∷ (k, b) ∷ rest else (k, b) ∷ insert_point h a rest

unfoldable pub sort_by_hash {ℓ} : {A : Type ℓ} → List (ℕ × A) → List (ℕ × A)
unfolding insert_point
sort_by_hash [] = []
sort_by_hash ((h, a) ∷ rest) = insert_point h a (sort_by_hash rest)

unfoldable pub from_backends : List Backend → Ring
unfolding all_points sort_by_hash
from_backends backends = record {
  points = sort_by_hash (all_points 0 backends);
  backends = backends;
}

-- On sorted points the binary search finds the end of the first stretch below `h`.
unfoldable pub partition_point {ℓ} : {A : Type ℓ} → ℕ → List (ℕ × A) → ℕ
partition_point h [] = 0
partition_point h ((p, _) ∷ rest) = if ltb p h then suc (partition_point h rest) else 0

unfoldable pub backend_at : Ring → Option (ℕ × ℕ) → Option Backend
backend_at ring none = none
backend_at ring (some (_, i)) = get_elem? ring.backends i

-- `idx % len`, where the length is not 0
unfoldable pub point_at : List (ℕ × ℕ) → ℕ → Option (ℕ × ℕ)
point_at [] idx = none
point_at (p ∷ ps) idx = get_elem? (p ∷ ps) (idx % length (p ∷ ps))

unfoldable pub route : Ring → String → Option Backend
unfolding hash64 as_bytes partition_point backend_at point_at
route ring key =
    let h = hash64 (as_bytes key) in
    if is_empty ring.points
    then none
    else backend_at ring (point_at ring.points (partition_point h ring.points))

abbrev pub contains : List SocketAddr → SocketAddr → Bool
contains exclude a = any (eqb a) exclude

-- `if let Some(b) = … { if !exclude.contains(&b.addr) { return Some(b) } }`
unfoldable pub allowed : List SocketAddr → Option Backend → Option Backend
allowed exclude none = none
allowed exclude (some b) = if contains exclude b.addr then none else some b

unfoldable pub or_else : Option Backend → Option Backend → Option Backend
or_else (some b) rest = some b
or_else none rest = rest

-- The `for` over the offsets: `left` of them are still to come.
unfoldable pub route_loop : Ring → List SocketAddr → ℕ → ℕ → ℕ → Option Backend
unfolding backend_at point_at allowed or_else
route_loop ring exclude start off zero = none
route_loop ring exclude start off (suc left) =
    or_else (allowed exclude (backend_at ring (point_at ring.points (start + off))))
      (route_loop ring exclude start (suc off) left)

unfoldable pub route_excluding : Ring → String → List SocketAddr → Option Backend
unfolding hash64 as_bytes partition_point route_loop
route_excluding ring key exclude =
    let h = hash64 (as_bytes key) in
    if is_empty ring.points
    then none
    else route_loop ring exclude (partition_point h ring.points) 0 (length ring.points)

pub record ProxyState : Type 0 where
  pub ring : Ring
  pub sticky : Dict String (SocketAddr × ℕ)
  pub ttl : ℕ

unfoldable pub new : ℕ → ProxyState
new ttl = record { ring = record { points = []; backends = [] }; sticky = []; ttl = ttl }

unfoldable pub set_backends : List Backend → ProxyState → ProxyState
unfolding from_backends
set_backends backends s = record s { ring = from_backends backends }

-- A hit of the sticky cache that has not run out, is not dead, and is still in the ring.
unfoldable pub sticky_hit : ℕ → String → List SocketAddr → ProxyState → Option SocketAddr
unfolding get
sticky_hit now client_ip dead s = elim (get client_ip s.sticky) [
  | none ↦ none
  | some (addr, exp) ↦
      if ltb now exp && not (contains dead addr)
      then if any (λ (b : Backend). eqb b.addr addr) s.ring.backends then some addr else none
      else none
]

-- `now` is the clock at the lookup, `later` at the insertion.
unfoldable pub pick : ℕ → ℕ → String → List SocketAddr → ProxyState → Option Backend × ProxyState
unfolding sticky_hit route_excluding insert
pick now later client_ip dead s = elim (sticky_hit now client_ip dead s) [
  | some addr ↦ (some (record { addr = addr; id = String.[] }), s)
  | none ↦ elim (route_excluding s.ring client_ip dead) [
    | none ↦ (none, s)
    | some chosen ↦
        (some chosen, record s { sticky = insert client_ip (chosen.addr, later + s.ttl) s.sticky })
  ]
]

unfoldable pub invalidate : String → ProxyState → ProxyState
unfolding remove
invalidate client_ip s = record s { sticky = remove client_ip s.sticky }

abbrev pub http_methods : List (List ℕ)
http_methods =
    map codes
      ("GET" ∷ "HEAD" ∷ "POST" ∷ "PUT" ∷ "DELETE" ∷ "CONNECT" ∷ "OPTIONS" ∷ "TRACE" ∷ "PATCH" ∷ [])

-- `u8::to_ascii_uppercase`
abbrev pub upper : ℕ → ℕ
upper b = if leb 97 b && leb b 122 then b - 32 else b

unfoldable pub starts_request : List ℕ → List ℕ → Bool
starts_request [] [] = false
starts_request [] (b ∷ _) = eqb b 32
starts_request (m ∷ ms) [] = false
starts_request (m ∷ ms) (b ∷ bs) = eqb (upper b) (upper m) && starts_request ms bs

-- What `peek` returned within the window: at most 16 bytes, or `none` for a timeout or an error.
unfoldable pub client_looks_like_http : Option (List ℕ) → Bool
unfolding starts_request
client_looks_like_http none = false
client_looks_like_http (some head) = any (λ m. starts_request m (take 16 head)) http_methods

pub data Served : Type 0 where
  forwarded : SocketAddr → Served
  maintenance : Served
  hung_up : Served

-- What one turn of the search meets: the clock at its lookup and its insertion, and the backends that
-- accept a connection just then.
pub record Moment : Type 0 where
  pub now : ℕ
  pub later : ℕ
  pub accepts : SocketAddr → Bool

-- What one turn does with the pick: `retry` is the rest of the loop.
unfoldable pub after_pick :
    Option Backend × ProxyState
    → (SocketAddr → Bool)
    → Bool
    → (SocketAddr → ProxyState → Option (Served × ProxyState))
    → Option (Served × ProxyState)
after_pick (none, s) accepts http retry = some (if http then maintenance else hung_up, s)
after_pick (some b, s) accepts http retry = elim (accepts b.addr) [
  | true ↦ some (forwarded b.addr, s)
  | false ↦ retry b.addr s
]

-- The loop of `handle_client`, with what the peek at the client returns; the fuel is its turns. Between
-- two turns the ring and the sticky cache are as this connection left them, whereas in the source a
-- `set_backends` or another connection can come between.
unfoldable pub find_upstream :
    ℕ
    → (ℕ → Moment)
    → Option (List ℕ)
    → String
    → List SocketAddr
    → ProxyState
    → Option (Served × ProxyState)
unfolding pick invalidate client_looks_like_http after_pick
find_upstream zero moment head client_ip dead s = none
find_upstream (suc fuel) moment head client_ip dead s =
    let m = moment (length dead) in
    after_pick (pick m.now m.later client_ip dead s) m.accepts (client_looks_like_http head)
      (λ a s'. find_upstream fuel moment head client_ip (dead ++ a ∷ []) (invalidate client_ip s'))

unfoldable pub handle_client :
    (ℕ → Moment) → Option (List ℕ) → String → ProxyState → Option (Served × ProxyState)
unfolding find_upstream
handle_client moment head client_ip s =
    find_upstream (suc (length s.ring.backends)) moment head client_ip [] s
