-- ===== src/Main/Answers.antt =====
-- The answers of getopt_long, what they say of the options, and what one round of the loop over the
-- command line does with one of them.
use ccnx_testrig.Prelude.{
  ℕ, ℤ, pos, negsuc, int_eq, ◌<◌, ◌%◌, ◌^◌, ◌≡◌, ◌≢◌, refl, ap, subst, Bool, true, false,
  Bool-cases, inl, inr, ltb, if◌then◌else◌, String, Option, none, some, List, [], ◌∷◌, arith,
}
use ccnx_testrig.Run.{Run, ok, pure, Stops, stops, exit_success}
use ccnx_testrig.Platform.{Platform}
use ccnx_testrig.Heap.{copy_string, HasSpareBytes}
use ccnx_testrig.Reporter.{Console}
use ccnx_testrig.Link.{LinkType}
use ccnx_testrig.World.{Options}
use ccnx_testrig.Main.{link_type_of, scan_into, show_usage, handle_option}

-- The options that take an argument: 't', 'a' and 'p'.
abbrev pub takes_argument : ℤ → Bool
takes_argument c =
    if int_eq c (pos 116) then true else if int_eq c (pos 97) then true else int_eq c (pos 112)

-- An answer of getopt_long: the option's character, or -1, and its argument.
abbrev pub Answer : Type 0
Answer = ℤ × Option String

-- Whether one of the answers is 'h'.
abbrev pub asks_help : List Answer → Bool
asks_help [] = false
asks_help ((c, argument) ∷ answers) = if int_eq c (pos 104) then true else asks_help answers

-- The argument of the last 'a', or what there was before.
abbrev pub last_address : Option String → List Answer → Option String
last_address old [] = old
last_address old ((c, argument) ∷ answers) =
    last_address (if int_eq c (pos 97) then argument else old) answers

module _ ⦃p : Platform⦄ where
  -- The lower four bytes of the number that `sscanf` reads, or what there was before.
  abbrev pub scanned : {A : Type 0} → Option String → A → (ℕ → A) → A
  scanned none old of_bytes = old
  scanned (some words) old of_bytes = elim (p.scan_size words) [
    | none ↦ old
    | some n ↦ of_bytes (n % 2 ^ 32)
  ]

  -- The number of the last 'p' that has one.
  abbrev pub last_port : ℕ → List Answer → ℕ
  last_port old [] = old
  last_port old ((c, argument) ∷ answers) =
      last_port (if int_eq c (pos 112) then scanned argument old (λ n. n) else old) answers

  -- The link type of the last 't' that has a number.
  abbrev pub last_type : Option LinkType → List Answer → Option LinkType
  last_type old [] = old
  last_type old ((c, argument) ∷ answers) =
      last_type
        (if int_eq c (pos 116) then scanned argument old (λ n. some (link_type_of n)) else old)
        answers

  -- The answers of getopt_long, called as long as `optind` is below `argc`.
  pub data Calls (argc : ℕ) : p.Getopt → List Answer → Type 0 where
    no_more : {s : p.Getopt} → ltb (p.optind s) argc ≡ false → Calls argc s []
    called :
        {s : p.Getopt} {answers : List Answer}
        → ltb (p.optind s) argc ≡ true
        → Calls argc (p.getopt_long s).2 answers
        → Calls argc s (((p.getopt_long s).0, (p.getopt_long s).1) ∷ answers)

  -- A command line of options only: each call of getopt_long leaves less of it to read, an option
  -- behind another in one argument included, and an option that takes an argument comes with it.
  pub record AllOptions (argc : ℕ) : Type 0 where
    pub left : p.Getopt → ℕ
    pub moves : (s : p.Getopt) → p.optind s < argc → left (p.getopt_long s).2 < left s
    pub with_argument :
        (s : p.Getopt) → takes_argument (p.getopt_long s).0 ≡ true → (p.getopt_long s).1 ≢ none

  -- The options with the last answers written over them.
  abbrev pub written : Options → List Answer → Options
  written o answers = record {
    link_type = last_type o.link_type answers;
    address = last_address o.address answers;
    port = last_port o.port answers;
  }

  -- The character of an answer.
  pub data Letter (c : ℤ) : Type 0 where
    letter_t : pos 116 ≡ c → Letter c
    letter_a : pos 97 ≡ c → Letter c
    letter_p : pos 112 ≡ c → Letter c
    letter_h : pos 104 ≡ c → Letter c
    letter_other :
        int_eq c (pos 116) ≡ false
        → int_eq c (pos 97) ≡ false
        → int_eq c (pos 112) ≡ false
        → int_eq c (pos 104) ≡ false
        → Letter c

  int_eq-eq : (a b : ℤ) → int_eq a b ≡ true → b ≡ a
  int_eq-eq (pos m) (pos n) e = ap pos (ground arith)
  int_eq-eq (pos m) (negsuc n) e = absurd (cc)
  int_eq-eq (negsuc m) (pos n) e = absurd (cc)
  int_eq-eq (negsuc m) (negsuc n) e = ap negsuc (ground arith)

  pub letter : (c : ℤ) → Letter c
  letter c = elim (Bool-cases (int_eq c (pos 116))) [
    | inl t ↦ letter_t (int_eq-eq c (pos 116) t)
    | inr not_t ↦ elim (Bool-cases (int_eq c (pos 97))) [
      | inl a ↦ letter_a (int_eq-eq c (pos 97) a)
      | inr not_a ↦ elim (Bool-cases (int_eq c (pos 112))) [
        | inl p' ↦ letter_p (int_eq-eq c (pos 112) p')
        | inr not_p ↦ elim (Bool-cases (int_eq c (pos 104))) [
          | inl h ↦ letter_h (int_eq-eq c (pos 104) h)
          | inr not_h ↦ letter_other not_t not_a not_p not_h
        ]
      ]
    ]
  ]

module _ ⦃p : Platform⦄ (spare : HasSpareBytes) (o : Options) (console : Console) where
  -- What a round does with an answer.
  abbrev pub round_of : ℤ → Option String → Run Console Options
  round_of c argument = (if int_eq c (negsuc 0) then pure o else handle_option c argument o) console

  -- A round writes its answer, or shows the help and ends the program.
  abbrev pub Writes : ℤ → Option String → Type 0
  Writes c argument =
      (takes_argument c ≡ true → argument ≢ none)
      → (int_eq c (pos 104) ≡ true → Stops exit_success (round_of c argument))
        × (int_eq c (pos 104) ≡ false
            → round_of c argument ≡ ok (written o ((c, argument) ∷ [])) console)

  Writes-t : (argument : Option String) → Writes (pos 116) argument
  unfolding handle_option scan_into
  Writes-t none given = absurd (given refl refl)
  Writes-t (some words) given = (λ h. absurd (cc), λ _. refl)

  Writes-a : (argument : Option String) → Writes (pos 97) argument
  unfolding handle_option copy_string
  Writes-a none given = absurd (given refl refl)
  Writes-a (some words) given = (λ h. absurd (cc), λ _. rw (spare words) refl)

  Writes-p : (argument : Option String) → Writes (pos 112) argument
  unfolding handle_option scan_into
  Writes-p none given = absurd (given refl refl)
  Writes-p (some words) given = (λ h. absurd (cc), λ _. refl)

  Writes-h : (argument : Option String) → Writes (pos 104) argument
  unfolding handle_option show_usage
  Writes-h argument given = (λ _. stops, λ h. absurd (cc))

  pub Writes-Letter : (c : ℤ) (argument : Option String) → Letter c → Writes c argument
  unfolding handle_option
  Writes-Letter c argument (letter_t e) given =
      subst (λ x. Writes x argument) e (Writes-t argument) given
  Writes-Letter c argument (letter_a e) given =
      subst (λ x. Writes x argument) e (Writes-a argument) given
  Writes-Letter c argument (letter_p e) given =
      subst (λ x. Writes x argument) e (Writes-p argument) given
  Writes-Letter c argument (letter_h e) given =
      subst (λ x. Writes x argument) e (Writes-h argument) given
  Writes-Letter c argument (letter_other not_t not_a not_p not_h) given = (
    λ h. absurd (cc),
    λ _. elim (Bool-cases (int_eq c (negsuc 0))) [
      | inl end ↦ rw (end, not_t, not_a, not_p) refl
      | inr an_option ↦ rw (an_option, not_t, not_a, not_p, not_h) refl
    ],
  )
