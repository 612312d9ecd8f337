-- ===== src/Mt5api/Terminal/Binding.antt =====
-- Which login a terminal is bound with.
use mt5_connector.Common.{
  Bool, Bool-cases, Option, arith, false, if-cases, if◌then◌else◌, inl, inr, nat_eq, none, refl,
  string_eq, true, ℕ, ◌∙◌, ◌≡◌,
}
use mt5_connector.Common.Dict.{beq_refl}
use mt5_connector.Common.Int.{ℤ}
use mt5_connector.Mt5api.Terminal.Connect.{
  Probes, Reply, Session, accepts, cold_timeout, connect, drop_lost, fails, forget_login,
  initialize_reply, initialize_terminal, is_logged_in, log_in_reply, log_in_terminal,
  note_initialize_failure, start_prepared, start_terminal, terminal_failure, timeout_or,
}
use mt5_connector.Mt5api.Terminal.Start.{
  Login, Outcome, Scene, Setup, Terminal, launch, prepare, raised, returned, same_login,
}
use mt5_connector.Pool.Protocol.{StartReport}

-- A terminal that is not bound remembers no login.
abbrev pub IsCoherent : Terminal → Type 0
IsCoherent t = t.is_bound ≡ false → t.current_login ≡ none

-- What `connect` leaves: the wanted login on a bound terminal, or no login at all.
abbrev pub IsConnected : Login → Outcome Unit × Terminal → Type 0
IsConnected wanted (returned _, t) =
    (t.is_bound ≡ true) × (is_logged_in wanted t.current_login ≡ true)
IsConnected wanted (raised _, t) = t.current_login ≡ none

same_login_refl : (l : Login) → same_login l l ≡ true
same_login_refl l = ground (arith, beq_refl l.login, beq_refl l.password, beq_refl l.server)

failure-login :
    (setup : Setup) (probes : Probes) (code : Option ℤ) (t : Terminal)
    → ((terminal_failure setup probes code t).1.current_login ≡ t.current_login)
      × ((terminal_failure setup probes code t).1.is_bound ≡ t.is_bound)
unfolding terminal_failure
failure-login setup probes code t = (ground arith, ground arith)

note-login :
    (probes : Probes) (code : Option ℤ) (t : Terminal)
    → (note_initialize_failure probes code t).current_login ≡ t.current_login
unfolding note_initialize_failure
note-login probes code t = ground arith

initialize-IsConnected :
    (setup : Setup) (session : Session) (wanted : Login) (reply : Reply) (t : Terminal)
    → t.current_login ≡ none
    → IsConnected wanted (initialize_reply setup session wanted reply t)
unfolding initialize_reply
initialize-IsConnected setup session wanted accepts t unset = (refl, same_login_refl wanted)
initialize-IsConnected setup session wanted (fails code) t unset =
    (failure-login setup session.probes code (note_initialize_failure session.probes code t)).0
    ∙ note-login session.probes code t
    ∙ unset

launch-login :
    (setup : Setup) (scene : Scene) (report : StartReport) (t : Terminal)
    → (launch setup scene report t).1.current_login ≡ t.current_login
launch-login setup scene report t = ground arith

prepare-login :
    (setup : Setup) (scene : Scene) (t : Terminal)
    → (prepare setup scene t).1.current_login ≡ t.current_login
unfolding prepare
prepare-login setup scene t = ground arith

start_prepared-IsConnected :
    (setup : Setup) (session : Session) (wanted : Login) (timeout : ℕ)
    (prepared : Outcome Bool × Terminal)
    → prepared.1.current_login ≡ none
    → IsConnected wanted (start_prepared setup session wanted timeout prepared)
start_prepared-IsConnected setup session wanted timeout (raised error, t) unset = unset
start_prepared-IsConnected setup session wanted timeout (returned launched, t) unset =
    initialize-IsConnected setup session wanted
      (session.initialize (if launched then cold_timeout setup timeout else timeout)) t unset

start-IsConnected :
    (setup : Setup) (session : Session) (wanted : Login) (timeout : ℕ) (t : Terminal)
    → t.current_login ≡ none
    → IsConnected wanted (start_terminal setup session wanted timeout t)
unfolding start_terminal
start-IsConnected setup session wanted timeout t unset =
    if-cases (IsConnected wanted) setup.managed
      (start_prepared setup session wanted timeout (prepare setup session.scene t))
      (initialize_terminal setup session wanted timeout t)
      (λ managed.
        start_prepared-IsConnected setup session wanted timeout (prepare setup session.scene t)
          (prepare-login setup session.scene t ∙ unset))
      (λ not_managed.
        initialize-IsConnected setup session wanted (session.initialize timeout) t unset)

log_in-IsConnected :
    (setup : Setup) (session : Session) (wanted : Login) (reply : Reply) (t : Terminal)
    → t.is_bound ≡ true
    → IsConnected wanted (log_in_reply setup session wanted reply t)
unfolding log_in_reply
log_in-IsConnected setup session wanted accepts t bound = (bound, same_login_refl wanted)
log_in-IsConnected setup session wanted (fails code) t bound =
    (failure-login setup session.probes code (forget_login t)).0

drop_lost-IsCoherent :
    (setup : Setup) (session : Session) (t : Terminal)
    → IsCoherent t
    → IsCoherent (drop_lost setup session t)
drop_lost-IsCoherent setup session t coherent unbound = elim (Bool-cases t.is_bound) [
  | inl bound ↦ ground arith
  | inr loose ↦ ground (arith, coherent loose)
]

-- Whatever the system answers, a terminal that remembers no login while it is not bound ends
-- `connect` either bound and with the wanted login, or with an error and without any login.
pub connect-IsConnected :
    (setup : Setup) (session : Session) (wanted : Login) (timeout_ms : Option ℕ) (t : Terminal)
    → IsCoherent t
    → IsConnected wanted (connect setup session wanted timeout_ms t)
unfolding connect
connect-IsConnected setup session wanted timeout_ms t coherent =
    let kept = drop_lost setup session t in
    if-cases (IsConnected wanted) kept.is_bound
      (if is_logged_in wanted kept.current_login
        then (returned tt, kept)
        else log_in_terminal setup session wanted (timeout_or timeout_ms setup.login_timeout_ms)
            kept)
      (start_terminal setup session wanted (timeout_or timeout_ms setup.init_timeout_ms) kept)
      (λ bound.
        if-cases (IsConnected wanted) (is_logged_in wanted kept.current_login) (returned tt, kept)
          (log_in_terminal setup session wanted (timeout_or timeout_ms setup.login_timeout_ms) kept)
          (λ same. (bound, same))
          (λ other.
            log_in-IsConnected setup session wanted
              (session.log_in (timeout_or timeout_ms setup.login_timeout_ms)) kept bound))
      (λ unbound.
        start-IsConnected setup session wanted (timeout_or timeout_ms setup.init_timeout_ms) kept
          (drop_lost-IsCoherent setup session t coherent unbound))
