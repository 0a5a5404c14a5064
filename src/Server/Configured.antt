-- ===== src/Server/Configured.antt =====
-- tcp_server.cpp, io_thread_group.cpp and config.cpp: the number of I/O threads that is configured.
use native.Mathlib.Nat.{mod-eq_of_lt}
use rpc_framework.Base.{
  ℕ, zero, suc, ◌+◌, ◌%◌, ◌<◌, ◌≡◌, ◌↔◌, refl, ap, sym, ◌∙◌, List, ◌∷◌, none, some, Bool, true,
  false, if◌then◌else◌, ◌==◌, length, arith,
}
use rpc_framework.Base.Int.{ℤ, pos}
use rpc_framework.Addr.{IpNetAddr}
use rpc_framework.Config.{Config}
use rpc_framework.Server.{TcpServer, accept_one, on_accept}
use rpc_framework.Server.Dealing.{on_accept-deals}
use rpc_framework.Threads
use rpc_framework.Threads.{IoThreadGroup, threads_from, wrapped, get_io_thread}

length-threads_from : (n i : ℕ) → length (threads_from n i) ≡ n
length-threads_from zero i = refl
length-threads_from (suc n) i = ap suc (length-threads_from n (i + 1))

pub either_zero : (b : Bool) → ◌≡◌ {A = ℕ} (if b then 0 else 0) 0
either_zero true = refl
either_zero false = refl

-- With no thread the first client is given to one outside the vector.
on_accept-faults :
    (r : ℤ × IpNetAddr) (results : List (ℤ × IpNetAddr)) (s : TcpServer)
    → get_io_thread s.m_io_thread_group ≡ none
    → on_accept (r ∷ results) s ≡ none
unfolding on_accept accept_one
on_accept-faults r results s e = rw e refl

made :
    (n : ℕ) (config : Config) (g : IoThreadGroup)
    → config.m_io_threads ≡ pos n
    → Threads.make config.m_io_threads ≡ some g
    → g ≡ record { m_io_thread_groups = threads_from n 0; m_index = 0 }
unfolding Threads.make
made n config g c e = ground (arith, c, e)

-- Where the configured number of I/O threads is not negative, a server whose group is made for it deals its
-- first clients, however many there are, exactly if the number is not 0.
pub on_accept-configured :
    (n : ℕ) (config : Config) (r : ℤ × IpNetAddr) (results : List (ℤ × IpNetAddr)) (s : TcpServer)
    → config.m_io_threads ≡ pos n
    → Threads.make config.m_io_threads ≡ some s.m_io_thread_group
    → (0 < n) ↔ ((s' : TcpServer) × (on_accept (r ∷ results) s ≡ some s'))
unfolding get_io_thread
on_accept-configured zero config r results s c e =
    let none_there = ap get_io_thread (made zero config s.m_io_thread_group c e) in
    (
      λ h. elim h [ ],
      λ accepted. absurd (ground (arith, accepted.1, on_accept-faults r results s none_there)),
    )
on_accept-configured (suc n) config r results s c e =
    let g = made (suc n) config s.m_io_thread_group c e in
    let there : 0 < length s.m_io_thread_group.m_io_thread_groups =
      omega (arith, ap (λ x. length x.m_io_thread_groups) g) in
    let first : wrapped s.m_io_thread_group ≡ 0 % length s.m_io_thread_group.m_io_thread_groups =
      ap wrapped g
      ∙ either_zero (0 == length (threads_from (suc n) 0))
      ∙ sym (mod-eq_of_lt there) in
    let dealt = on_accept-deals 0 0 (r ∷ results) s there first in
    (λ h. (dealt.2, dealt.3), λ h. omega arith)
