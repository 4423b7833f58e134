-- ===== src/Console/Start.antt =====
-- eventfold-console/src: `main` of main.rs, from the command line to the end, with the connection of
-- client.rs and the terminal's modes of tui.rs. What the transport, the files and the terminal
-- answer are arguments, and so are the rounds of the event loop.
use eventfold_db.Common.{
  ℕ, ap, ◌≡◌, refl, Bool, true, false, List, Option, none, some, if◌then◌else◌,
}
use native.Mathlib.Omega.{arith}
use eventfold_db.Console.App.{AppState, new}
use eventfold_db.Console.Loop.{Tick, run_event_loop}
use eventfold_db.Console.Tls.{
  Cli, TlsOptions, Flags, paired, missing_client_key, missing_client_cert, validate_tls_flags,
  Built, built, unreadable, panicked, build_tls_options,
}

-- tonic's transport.
pub record Transport : Type 1 where
  pub Endpoint : Type 0
  pub Channel : Type 0
  pub from_shared : List ℕ → Option Endpoint
  pub tls_config : Endpoint → Option (List ℕ) → Option (List ℕ × List ℕ) → Option Endpoint
  pub dial : Endpoint → Option Channel

-- The modes of the terminal.
pub record Terminal : Type 0 where
  pub raw_mode : Bool
  pub alternate_screen : Bool

-- Which of the calls to the terminal succeed.
pub record TerminalIo : Type 0 where
  pub enable_raw_mode : Bool
  pub enter_alternate : Bool
  pub create : Bool
  pub disable_raw_mode : Bool
  pub leave_alternate : Bool

-- The terminal after the calls, and whether all of them succeeded.
unfoldable pub init_terminal : TerminalIo → Terminal → Terminal × Bool
init_terminal io terminal =
    if io.enable_raw_mode
    then if io.enter_alternate
      then (record { raw_mode = true; alternate_screen = true }, io.create)
      else (record terminal { raw_mode = true }, false)
    else (terminal, false)

unfoldable pub restore_terminal : TerminalIo → Terminal → Terminal × Bool
restore_terminal io terminal =
    if io.disable_raw_mode
    then if io.leave_alternate
      then (record { raw_mode = false; alternate_screen = false }, true)
      else (record terminal { raw_mode = false }, false)
    else (terminal, false)

-- How `main` ends: a flag is missing, a panic, an error with its context, or the last state.
pub data Finish : Type 0 where
  exited : Flags → Finish
  panicking : Finish
  tls_failed : List ℕ → Finish
  connect_failed : Finish
  init_failed : Terminal → Finish
  restore_failed : Terminal → Finish
  finished : AppState → Terminal → Finish

module _ ⦃transport : Transport⦄ where
  abbrev pub dial_at : Option transport.Endpoint → Option transport.Channel
  dial_at none = none
  dial_at (some endpoint) = transport.dial endpoint

  abbrev pub secured : TlsOptions → Option transport.Endpoint → Option transport.Endpoint
  secured tls none = none
  secured tls (some endpoint) = transport.tls_config endpoint tls.ca_pem tls.identity

  -- `Client::connect`; `none` is `ConnectionFailed`.
  unfoldable pub connect : List ℕ → TlsOptions → Option transport.Channel
  connect addr tls =
      if tls.enabled
      then dial_at (secured tls (transport.from_shared addr))
      else dial_at (transport.from_shared addr)

  module _ (io : TerminalIo) (terminal : Terminal) (ticks : List Tick) where
    abbrev pub restored : AppState → Terminal × Bool → Finish
    restored state (t, true) = finished state t
    restored state (t, false) = restore_failed t

    abbrev pub run_terminal : List ℕ → Terminal × Bool → Finish
    run_terminal addr (t, true) =
        restored (run_event_loop (record (new addr) { streams_loading = true }) ticks)
          (restore_terminal io t)
    run_terminal addr (t, false) = init_failed t

    abbrev pub run_connected : List ℕ → Option transport.Channel → Finish
    run_connected addr none = connect_failed
    run_connected addr (some channel) = run_terminal addr (init_terminal io terminal)

    abbrev pub run_with : List ℕ → Built TlsOptions → Finish
    run_with addr (unreadable path) = tls_failed path
    run_with addr panicked = panicking
    run_with addr (built tls) = run_connected addr (connect addr tls)

    abbrev pub run_checked : (List ℕ → Option (List ℕ)) → Cli → Flags → Finish
    run_checked read cli paired = run_with cli.addr (build_tls_options read cli)
    run_checked read cli flags = exited flags

    unfoldable pub main : (List ℕ → Option (List ℕ)) → Cli → Finish
    main read cli = run_checked read cli (validate_tls_flags cli)

    -- The state that the event loop leaves, and a terminal in its plain modes.
    abbrev pub Ends : List ℕ → AppState → Terminal → Type 0
    Ends addr state t =
        (state ≡ run_event_loop (record (new addr) { streams_loading = true }) ticks)
        × (t ≡ record { raw_mode = false; alternate_screen = false })

    restore_terminal_lem :
        (t u : Terminal)
        → restore_terminal io t ≡ (u, true)
        → u ≡ record { raw_mode = false; alternate_screen = false }
    unfolding restore_terminal
    restore_terminal_lem t u h = ground arith

    restored-finished :
        (left : AppState) (p : Terminal × Bool) (state : AppState) (t : Terminal)
        → restored left p ≡ finished state t
        → (state ≡ left) × (p ≡ (t, true))
    restored-finished left (u, true) state t h =
        let same : state ≡ left = cc in let plain : u ≡ t = cc in (same, ap (λ v. (v, true)) plain)
    restored-finished left (u, false) state t h = cc

    run_terminal-Ends :
        (addr : List ℕ) (p : Terminal × Bool) (state : AppState) (t : Terminal)
        → run_terminal addr p ≡ finished state t
        → Ends addr state t
    run_terminal-Ends addr (u, true) state t h =
        let (same, plain) = restored-finished _ (restore_terminal io u) state t h in
        (same, restore_terminal_lem u t plain)
    run_terminal-Ends addr (u, false) state t h = cc

    run_connected-Ends :
        (addr : List ℕ) (o : Option transport.Channel) (state : AppState) (t : Terminal)
        → run_connected addr o ≡ finished state t
        → ((channel : transport.Channel) × (o ≡ some channel)) × Ends addr state t
    run_connected-Ends addr none state t h = cc
    run_connected-Ends addr (some channel) state t h =
        ((channel, refl), run_terminal-Ends addr (init_terminal io terminal) state t h)

    run_with-Ends :
        (addr : List ℕ) (b : Built TlsOptions) (state : AppState) (t : Terminal)
        → run_with addr b ≡ finished state t
        → (tls : TlsOptions) × (b ≡ built tls)
          × ((channel : transport.Channel) × (connect addr tls ≡ some channel))
          × Ends addr state t
    run_with-Ends addr (unreadable path) state t h = cc
    run_with-Ends addr panicked state t h = cc
    run_with-Ends addr (built tls) state t h =
        let (dialled, ends) = run_connected-Ends addr (connect addr tls) state t h in
        (tls, refl, dialled, ends)

    run_checked-Ends :
        (read : List ℕ → Option (List ℕ)) (cli : Cli) (flags : Flags) (state : AppState)
        (t : Terminal)
        → run_checked read cli flags ≡ finished state t
        → (flags ≡ paired) × (run_with cli.addr (build_tls_options read cli) ≡ finished state t)
    run_checked-Ends read cli paired state t h = (refl, h)
    run_checked-Ends read cli missing_client_key state t h = cc
    run_checked-Ends read cli missing_client_cert state t h = cc

    -- When `main` comes to its regular end, the flags were paired, the server was connected with the
    -- options built from them, the state is what the event loop made of the first one, and the
    -- terminal is in its plain modes.
    pub main-Ends :
        (read : List ℕ → Option (List ℕ)) (cli : Cli) (state : AppState) (t : Terminal)
        → main read cli ≡ finished state t
        → (validate_tls_flags cli ≡ paired)
          × ((tls : TlsOptions) × (build_tls_options read cli ≡ built tls)
              × ((channel : transport.Channel) × (connect cli.addr tls ≡ some channel))
              × Ends cli.addr state t)
    unfolding main
    main-Ends read cli state t h =
        let (flags, ran) = run_checked-Ends read cli (validate_tls_flags cli) state t h in
        (flags, run_with-Ends cli.addr (build_tls_options read cli) state t ran)
