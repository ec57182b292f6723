-- ===== src/Main/CommandLine.antt =====
-- What reading the command line gives.
use ccnx_testrig.Prelude.{
  ℕ, zero, suc, pos, negsuc, int_eq, ◌≤◌, ◌<◌, ◌≡◌, refl, true, false, Bool-cases, inl, inr, ltb,
  ◌==◌, if◌then◌else◌, String, Option, none, some, List, [], ◌∷◌, arith,
}
use ccnx_testrig.Run.{
  Run, ok, stop, Stops, stops, Stops-and_then, exit_success, exit_failure, out_of_fuel,
}
use ccnx_testrig.Platform.{Platform}
use ccnx_testrig.Heap.{copy_string, HasSpareBytes}
use ccnx_testrig.Reporter.{Console}
use ccnx_testrig.Link.{LinkType}
use ccnx_testrig.World.{Options}
use ccnx_testrig.Main.{
  default_address, default_port, show_usage, options_loop, address_or_default, set_defaults,
  parse_command_line_options,
}
use ccnx_testrig.Main.Answers.{
  Answer, asks_help, last_address, last_port, last_type, Calls, no_more, called, AllOptions,
  written, letter, Writes-Letter,
}

module _ ⦃p : Platform⦄ (spare : HasSpareBytes) (argc : ℕ) (all : AllOptions argc) where
  -- The rounds that are made of a command line write its answers.
  options_loop-Calls :
      (rounds : ℕ) (s : p.Getopt) (o : Options) (console : Console)
      → all.left s ≤ rounds
      → (answers : List Answer) × Calls argc s answers
        × (asks_help answers ≡ true → Stops exit_success (options_loop rounds argc s o console))
        × (asks_help answers ≡ false
            → options_loop rounds argc s o console ≡ ok (written o answers) console)
  unfolding options_loop
  options_loop-Calls zero s o console enough = elim (Bool-cases (ltb (p.optind s) argc)) [
    | inl below ↦ absurd (let less = all.moves s (ground arith) in omega arith)
    | inr over ↦ ([], no_more over, λ h. absurd (cc), λ _. rw over refl)
  ]
  options_loop-Calls (suc rounds) s o console enough = elim (Bool-cases (ltb (p.optind s) argc)) [
    | inl below ↦
        let (c, argument, s') = p.getopt_long s in
        let less = all.moves s (ground arith) in
        let (stopped, wrote) =
          Writes-Letter spare o console c argument (letter c) (all.with_argument s) in
        let (answers, calls, helped, read) =
          options_loop-Calls rounds s' (written o ((c, argument) ∷ [])) console (omega arith) in
        (
          (c, argument) ∷ answers,
          called below calls,
          λ h. elim (Bool-cases (int_eq c (pos 104))) [
            | inl help ↦ rw below (Stops-and_then (options_loop rounds argc s') (stopped help))
            | inr other ↦ rw below (rw (wrote other) (helped (rw other at h)))
          ],
          λ h. elim (Bool-cases (int_eq c (pos 104))) [
            | inl help ↦ absurd (let h' = rw help at h in cc)
            | inr other ↦ rw below (rw (wrote other) (read (rw other at h)))
          ],
        )
    | inr over ↦ ([], no_more over, λ h. absurd (cc), λ _. rw over refl)
  ]

module _ ⦃p : Platform⦄ where
  -- The answers of getopt_long decide what reading the command line comes to.
  abbrev pub Parses : ℕ → p.Getopt → Console → Run Console Options → Type 0
  Parses argc s console run =
      (answers : List Answer) × Calls argc s answers
      × (asks_help answers ≡ true → Stops exit_success run)
      × (asks_help answers ≡ false
          → run
            ≡ ok
                (record {
                  link_type = last_type none answers;
                  address =
                      some
                        (elim (last_address none answers) [ none ↦ default_address | some a ↦ a ]);
                  port = if last_port 0 answers == 0 then default_port else last_port 0 answers;
                })
                console)

  set_defaults_lem :
      (address : Option String) (t : Option LinkType) (port : ℕ) (console : Console)
      → HasSpareBytes
      → set_defaults (record { link_type = t; address = address; port = port }) console
        ≡ ok
            (record {
              link_type = t;
              address = some (elim address [ none ↦ default_address | some a ↦ a ]);
              port = if port == 0 then default_port else port;
            })
            console
  unfolding set_defaults address_or_default copy_string
  set_defaults_lem none t port console spare = rw (spare default_address) refl
  set_defaults_lem (some a) t port console spare = refl

  -- Let the heap have a byte to spare behind each block, let each call of getopt_long leave less of
  -- the command line to read, and let an option that takes an argument come with it. Then reading the
  -- command line ends, with at least as many rounds as there is to read. Where there is an argument
  -- beside the program's name, getopt_long is called until `optind` reaches `argc`, and if 'h' is
  -- among its answers the program exits with success; else it returns the link type of the last 't'
  -- with a number, or none, the address of the last 'a', or the default one, and the port of the last
  -- 'p' with a number, or the default one if that is 0 or there is none. Where there is no argument
  -- the program exits with failure.
  pub parse_command_line_options-Parses :
      (rounds argc : ℕ) (s : p.Getopt) (console : Console)
      → HasSpareBytes
      → (all : AllOptions argc) → all.left s ≤ rounds
      → (2 ≤ argc → Parses argc s console (parse_command_line_options rounds argc s console))
        × (argc < 2 → Stops exit_failure (parse_command_line_options rounds argc s console))
  unfolding parse_command_line_options show_usage
  parse_command_line_options-Parses rounds argc s console spare all enough = (
    λ two.
        let some_left : ltb argc 2 ≡ false = ground arith in
        let (answers, calls, helped, read) =
          options_loop-Calls spare argc all rounds s
            (record { link_type = none; address = none; port = 0 }) console enough in
        (
          answers,
          calls,
          λ h. rw some_left (Stops-and_then set_defaults (helped h)),
          λ h. rw some_left (
              rw (read h) (
                set_defaults_lem (last_address none answers) (last_type none answers)
                  (last_port 0 answers) console spare)),
        ),
    λ few. let none_left : ltb argc 2 ≡ true = ground arith in rw none_left stops,
  )

  -- States at which getopt_long answers -1 and moves on to another such state, with arguments left:
  -- those before an argument that is no option.
  pub record IsStuck (argc : ℕ) (Stuck : p.Getopt → Type 0) : Type 0 where
    pub more : (s : p.Getopt) → Stuck s → p.optind s < argc
    pub no_option : (s : p.Getopt) → Stuck s → (p.getopt_long s).0 ≡ negsuc 0
    pub stays : (s : p.Getopt) → Stuck s → Stuck (p.getopt_long s).2

  options_loop-stuck :
      (argc : ℕ) (Stuck : p.Getopt → Type 0)
      → IsStuck argc Stuck
      → (rounds : ℕ) (s : p.Getopt) (o : Options) (console : Console) → Stuck s
      → options_loop rounds argc s o console ≡ stop out_of_fuel console
  unfolding options_loop
  options_loop-stuck argc Stuck is zero s o console h =
      let left : ltb (p.optind s) argc ≡ true = ground (arith, is.more s h) in rw left refl
  options_loop-stuck argc Stuck is (suc rounds) s o console h =
      let left : ltb (p.optind s) argc ≡ true = ground (arith, is.more s h) in
      rw (left, is.no_option s h)
        (options_loop-stuck argc Stuck is rounds (p.getopt_long s).2 o console (is.stays s h))

  -- If getopt_long answers -1 while arguments are left, and keeps doing so, reading the command line
  -- ends with no number of rounds.
  pub parse_command_line_options-stuck :
      (argc : ℕ) (Stuck : p.Getopt → Type 0)
      → IsStuck argc Stuck
      → 2 ≤ argc
      → (rounds : ℕ) (s : p.Getopt) (console : Console) → Stuck s
      → Stops out_of_fuel (parse_command_line_options rounds argc s console)
  unfolding parse_command_line_options
  parse_command_line_options-stuck argc Stuck is two rounds s console h =
      let some_left : ltb argc 2 ≡ false = ground arith in
      rw some_left (rw (options_loop-stuck argc Stuck is rounds s _ console h) stops)
