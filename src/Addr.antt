-- ===== src/Addr.antt =====
-- RpcFramework/rocket/net/tcp/net_addr.h and net_addr.cpp: an IPv4 address with a port. `atoi`,
-- `std::to_string` and `inet_addr` are the C library's, and stand as arguments.
use native.Mathlib.Decide.{ℕ_discrete}
use rpc_framework.Base.{
  ℕ, ◌%◌, ◌^◌, ◌<◌, ◌≡◌, refl, ap, List, [], ◌∷◌, ◌++◌, Option, none, some, Bool, true, false, ◌≢◌,
  ◌||◌, if◌then◌else◌, ◌==◌, ltb, All, arith, ==_false, ==_refl,
}

pub record IpNetAddr : Type 0 where
  pub m_ip : List ℕ
  pub m_port : ℕ

-- `addr.find_first_of(c)` with the two `substr` around it: none for `npos`.
unfoldable pub split_first : ℕ → List ℕ → Option (List ℕ × List ℕ)
split_first c [] = none
split_first c (x ∷ xs) =
    let rest = split_first c xs in
    if x == c then some ([], xs) else elim rest [ none ↦ none | some (a, b) ↦ some (x ∷ a, b) ]

-- Splitting at the first occurrence.
pub split_first-append :
    (c : ℕ) (a b : List ℕ) → All (λ x. x ≢ c) a → split_first c (a ++ c ∷ b) ≡ some (a, b)
unfolding split_first
split_first-append c [] b h = rw (==_refl c)
split_first-append c (x ∷ a) b h = rw (==_false x c h.0, split_first-append c a b h.1)

-- What splitting says of a text: the two parts with the separator between them and none in the first,
-- or that there is no separator.
abbrev pub Splits : ℕ → List ℕ → Option (List ℕ × List ℕ) → Type 0
Splits c xs none = All (λ x. x ≢ c) xs
Splits c xs (some (a, b)) = (xs ≡ a ++ c ∷ b) × All (λ x. x ≢ c) a

grown-Splits :
    (c x : ℕ) (xs : List ℕ) (o : Option (List ℕ × List ℕ))
    → x ≢ c
    → Splits c xs o
    → Splits c (x ∷ xs) (elim o [ none ↦ none | some (a, b) ↦ some (x ∷ a, b) ])
grown-Splits c x xs none h s = (h, s)
grown-Splits c x xs (some (a, b)) h s = (ap (◌∷◌ x) s.0, (h, s.1))

pub split_first-Splits : (c : ℕ) (xs : List ℕ) → Splits c xs (split_first c xs)
unfolding split_first
split_first-Splits c [] = tt
split_first-Splits c (x ∷ xs) = elim (ℕ_discrete x c) [
  | yes e ↦ rw (e, ==_refl c) (refl, tt)
  | no n ↦ rw (==_false x c n) (grown-Splits c x xs (split_first c xs) n (split_first-Splits c xs))
]

-- A text with no separator has no parts.
pub split_first-none : (c : ℕ) (xs : List ℕ) → All (λ x. x ≢ c) xs → split_first c xs ≡ none
unfolding split_first
split_first-none c [] h = refl
split_first-none c (x ∷ xs) h = rw (==_false x c h.0, split_first-none c xs h.1)

abbrev pub colon : ℕ
colon = b':'

-- The constructor from "ip:port"; none where it logs the address as invalid. The port is narrowed to
-- 16 bits.
unfoldable pub of_text : (atoi : List ℕ → ℕ) → List ℕ → Option IpNetAddr
of_text atoi addr = elim (split_first colon addr) [
  | none ↦ none
  | some (ip, port) ↦ some (record { m_ip = ip; m_port = atoi port % 2 ^ 16 })
]

unfoldable pub to_text : (decimal : ℕ → List ℕ) → IpNetAddr → List ℕ
to_text decimal a = a.m_ip ++ colon ∷ decimal a.m_port

abbrev is_empty : List ℕ → Bool
is_empty [] = true
is_empty (x ∷ xs) = false

-- `inet_addr` is none for `INADDR_NONE`.
unfoldable pub check_valid : (inet_addr : List ℕ → Option ℕ) → IpNetAddr → Bool
check_valid inet_addr a =
    if is_empty a.m_ip
    then false
    else if a.m_port == 0 || ltb 65535 a.m_port
    then false
    else elim (inet_addr a.m_ip) [ none ↦ false | some n ↦ true ]

-- Reading the printed form of an address gives the address back, if its ip has no colon, its port has
-- 16 bits and `atoi` reads what `std::to_string` prints.
pub of_text-to_text :
    (atoi : List ℕ → ℕ) (decimal : ℕ → List ℕ) (a : IpNetAddr)
    → ((n : ℕ) → atoi (decimal n) ≡ n)
    → All (λ x. x ≢ colon) a.m_ip
    → a.m_port < 2 ^ 16
    → of_text atoi (to_text decimal a) ≡ some a
unfolding of_text to_text
of_text-to_text atoi decimal a h k l =
    let e : a.m_port % 2 ^ 16 ≡ a.m_port = omega arith in
    rw (split_first-append colon a.m_ip (decimal a.m_port) k, of_text, h a.m_port, e)

-- A valid address has a nonempty ip that `inet_addr` reads, and a port from 1 to 65535.
pub check_valid_sound :
    (inet_addr : List ℕ → Option ℕ) (a : IpNetAddr)
    → check_valid inet_addr a ≡ true
    → (a.m_ip ≢ []) × (0 < a.m_port) × (a.m_port < 65536) × (inet_addr a.m_ip ≢ none)
unfolding check_valid
check_valid_sound inet_addr a h = ground arith
