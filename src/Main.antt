-- ===== src/Main.antt =====
-- `main` of src/ccnxTestrig.c and its command line.
pub mod Answers
pub mod CommandLine
pub mod Links
pub mod OverUdp
use ccnx_testrig.Prelude.{
  ℕ, zero, suc, ℤ, pos, negsuc, int_eq, ◌+◌, ◌-◌, ◌%◌, ◌^◌, String, str_append, Option, none, some,
  List, [], ltb, ◌==◌, if◌then◌else◌,
}
use ccnx_testrig.Run.{
  Cmd, pure, halt, or_stop, null_pointer, uninitialised, exit_success, exit_failure, out_of_fuel,
  ◌>>=◌, ◌>>◌,
}
use ccnx_testrig.Platform.{Platform}
use ccnx_testrig.Heap.{copy_string}
use ccnx_testrig.Reporter.{Console, stdout, text, numbered, print}
use ccnx_testrig.Link.{LinkType, udp, tcp, invalid, other, LinkPointer}
use ccnx_testrig.Link.Open.{listen_link}
use ccnx_testrig.World.{Options, Rig, World, on_net, on_console}
use ccnx_testrig.Rig.{create_rig}
use ccnx_testrig.Suite.{run_all}

-- DEFAULT_PORT
abbrev pub default_port : ℕ
default_port = 9596

-- DEFAULT_ADDRESS
abbrev pub default_address : String
default_address = "localhost"

unfoldable pub show_usage : Cmd Console Unit
show_usage = do
  print stdout
      (text "Usage: ccnxTestrig [-h] [-t (UDP | TCP)] [-a <local address>] [-p <local port>] ")
  print stdout (text " -a       --address           Local IP address (localhost by default)")
  print stdout (text " -p       --port              Local IP port (9696 by defualt)")
  print stdout (text " -t       --transport         Transport mechanism (0 = UDP, 1 = TCP)")
  print stdout (text " -h       --help              Display the help message")

-- The enumerator that four bytes hold.
unfoldable pub link_type_of : ℕ → LinkType
link_type_of n = if n == 0 then udp else if n == 1 then tcp else if n == 3 then invalid else other n

-- The `int` that four bytes hold, as `printf` shows it.
abbrev int_of : ℕ → ℤ
int_of n = if ltb n (2 ^ 31) then pos n else negsuc (2 ^ 32 - 1 - n)

-- `portNumber++`
abbrev pub next_port : ℕ → ℕ
next_port port = (port + 1) % 2 ^ 32

module _ ⦃p : Platform⦄ where
  -- `sscanf` writes a `size_t` over four bytes and the padding behind them; where it reads no
  -- number they stay as they were.
  scan_into : {A : Type 0} → Option String → A → (ℕ → A) → Cmd Console A
  scan_into argument old of_bytes = do
    words ← or_stop argument null_pointer
    pure (elim (p.scan_size words) [ none ↦ old | some n ↦ of_bytes (n % 2 ^ 32) ])

  -- The `switch` over the option's character: 't', 'a', 'p' and 'h'.
  unfoldable pub handle_option : ℤ → Option String → Options → Cmd Console Options
  unfolding scan_into
  handle_option c argument options =
      if int_eq c (pos 116)
      then (do
        scanned ← scan_into argument options.link_type (λ n. some (link_type_of n))
        pure (record options { link_type = scanned }))
      else if int_eq c (pos 97)
      then (do
        argument' ← or_stop argument null_pointer
        address ← copy_string argument'
        pure (record options { address = some address }))
      else if int_eq c (pos 112)
      then (do
        scanned ← scan_into argument options.port (λ n. n)
        pure (record options { port = scanned }))
      else if int_eq c (pos 104)
      then (do show_usage; halt exit_success)
      else pure options

  -- `while (optind < argc)`: at -1 the round does nothing.
  options_loop : ℕ → ℕ → p.Getopt → Options → Cmd Console Options
  options_loop zero argc state options =
      if ltb (p.optind state) argc then halt out_of_fuel else pure options
  options_loop (suc rounds) argc state options =
      if ltb (p.optind state) argc
      then (do
        let (c, argument, state') = p.getopt_long state
        options' ← (if int_eq c (negsuc 0) then pure options else handle_option c argument options)
        options_loop rounds argc state' options')
      else pure options

  -- The address, or a copy of the default one.
  address_or_default : Option String → Cmd Console String
  address_or_default none = copy_string default_address
  address_or_default (some a) = pure a

  unfoldable pub set_defaults : Options → Cmd Console Options
  unfolding address_or_default
  set_defaults options = do
    address ← address_or_default options.address
    pure (record options {
      port = if options.port == 0 then default_port else options.port;
      address = some address;
    })

  unfoldable pub parse_command_line_options : ℕ → ℕ → p.Getopt → Cmd Console Options
  unfolding options_loop
  parse_command_line_options rounds argc state =
      if ltb argc 2 then (do show_usage; halt exit_failure) else (do
        options ←
            options_loop rounds argc state (record { link_type = none; address = none; port = 0 })
        set_defaults options)

  -- A link of `main`: what it listens on, and the line that says so.
  open_link : String → Options → ℕ → Cmd World (Option LinkPointer)
  open_link said options port = do
    link_type ← or_stop options.link_type uninitialised
    address ← or_stop options.address null_pointer
    link ← on_net (listen_link link_type address port)
    on_console (print stdout (numbered (str_append said (str_append address ":")) (int_of port)))
    pure link

  -- The three links of `main`, on consecutive ports.
  unfoldable pub open_links :
      Options → Cmd World (Option LinkPointer × Option LinkPointer × Option LinkPointer)
  unfolding open_link
  open_links options = do
    let port = options.port
    link_a ← open_link "Link A created at " options port
    link_b ← open_link "Link B created at " options (next_port port)
    link_c ← open_link "Link C created at " options (next_port (next_port port))
    pure (link_a, link_b, link_c)

  -- The rig of `main`, with the links that it opened.
  abbrev pub rig_with : Options → Option LinkPointer → Option LinkPointer → Option LinkPointer → Rig
  rig_with options a b c = record (create_rig options) { link_a = a; link_b = b; link_c = c }

  -- The links are opened, and the rig is made and gets them.
  unfoldable pub open_rig : Options → Cmd World Rig
  unfolding open_links
  open_rig options = do
    (link_a, link_b, link_c) ← open_links options
    on_console (print stdout (text "Configure routes on the forwarder..."))
    pure (rig_with options link_a link_b link_c)

  -- `main`, where the two bounds are on the rounds of the option loop and of a flush.
  unfoldable pub main : ℕ → ℕ → ℕ → p.Getopt → Cmd World ℕ
  main option_rounds flush_rounds argc state = do
    options ← on_console (parse_command_line_options option_rounds argc state)
    rig ← open_rig options
    run_all rig flush_rounds
    pure 0
