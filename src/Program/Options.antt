-- ===== src/Program/Options.antt =====
-- main.cpp: the paths that the server gets.
use remote_backup_m1_server.Prelude.{
  ◌≡◌, ◌≢◌, refl, sym, ◌∙◌, Bool, true, false, List, ℕ, Option, none, some, Option-cases, inl, inr,
  if◌then◌else◌,
}
use remote_backup_m1_server.Outcome.{Outcome, ok, exits, throws, fault, stuck}
use remote_backup_m1_server.Platform.{Platform}
use remote_backup_m1_server.Core.Exec.{Exec, pure, lift, gets, modify, ◌>>=◌}
use remote_backup_m1_server.Core.Exec.Triple.{After, Triple, After-unit, Triple-bind}
use remote_backup_m1_server.Program.{
  Setting, backup_root, credentials_file, logger_file, Library, Note, Parsing, parsing_failed,
  or_throw, handle_any, try_any, note, give_up, remark, require, check_path, store, check_paths,
  parse_rest, parse, parse_options,
}

-- A map of options: what was put in for one option is found, and the others are as before.
pub record IsOptionMap {os : Platform} (lib : Library os) : Type 0 where
  pub same :
      (s : Setting) (p : os.FsPath) (v : lib.Values) → lib.path_of s (lib.set_path s p v) ≡ some p
  pub other :
      (s t : Setting) (p : os.FsPath) (v : lib.Values)
      → s ≢ t
      → lib.path_of t (lib.set_path s p v) ≡ lib.path_of t v

true-false : true ≡ false → ⊥
true-false e = cc

-- The command line can be read and asks for help.
unfoldable pub asks_help : {os : Platform} (lib : Library os) → List (List ℕ) → Parsing lib → Bool
asks_help lib arguments s = elim (lib.store_command_line arguments s.vm) [
  | none ↦ false
  | some vm ↦ lib.has_help vm
]

module _ {os : Platform} (lib : Library os) (disk : os.Disk) where
  -- The option is a canonical path that the test accepts.
  pub record IsChecked (setting : Setting) (test : os.FsPath → os.Disk → Option Bool)
      (vm : lib.Values) : Type 0 where
    pub given : os.FsPath
    pub path : os.FsPath
    pub is_canonical : lib.canonical given disk ≡ some path
    pub is_set : lib.path_of setting vm ≡ some path
    pub passes : test path disk ≡ some true

  -- What the server gets: a directory and two files.
  pub record AllChecked (vm : lib.Values) : Type 0 where
    pub root : IsChecked backup_root lib.is_directory vm
    pub credentials : IsChecked credentials_file lib.is_regular_file vm
    pub log : IsChecked logger_file lib.is_regular_file vm

module _ {os : Platform} (lib : Library os) (laws : IsOptionMap lib) (disk : os.Disk) where
  IsChecked-set_path :
      (s t : Setting) (test : os.FsPath → os.Disk → Option Bool) (p : os.FsPath) (vm : lib.Values)
      → s ≢ t
      → IsChecked lib disk t test vm
      → IsChecked lib disk t test (lib.set_path s p vm)
  IsChecked-set_path s t test p vm differ c = record {
    given = c.given;
    path = c.path;
    is_canonical = c.is_canonical;
    is_set = laws.other s t p vm differ ∙ c.is_set;
    passes = c.passes;
  }

  -- An action after which, if it returns, `Q` holds of the options, where `P` held before.
  abbrev Leaves {κ} :
      {A : Type κ} → (lib.Values → Type 0) → Exec (Parsing lib) A → (lib.Values → Type 0) → Type 0
  Leaves P m Q = Triple (λ s. P s.vm) m (λ _ s. Q s.vm) (λ _. Unit)

  remark-Leaves : (P : lib.Values → Type 0) (b : Bool) (n : Note os) → Leaves P (remark lib b n) P
  unfolding remark note modify pure
  remark-Leaves P true n = record { at = λ s p. p }
  remark-Leaves P false n = record { at = λ s p. p }

  check_path-Leaves :
      (P : lib.Values → Type 0) (setting shown : Setting) (test : os.FsPath → os.Disk → Option Bool)
      (refused : os.FsPath → Note os)
      → ((p : os.FsPath) (vm : lib.Values) → P vm → P (lib.set_path setting p vm))
      → Leaves P
          (check_path lib disk setting test refused shown)
          (λ vm. IsChecked lib disk setting test vm × P vm)
  unfolding check_path or_throw require give_up ◌>>=◌
  check_path-Leaves P setting shown test refused keep = record {
    at = λ s p. elim (Option-cases (lib.path_of setting s.vm)) [
      | inl e ↦ rw e tt
      | inr (given, e) ↦ elim (Option-cases (lib.canonical given disk)) [
        | inl f ↦ rw (e, f) tt
        | inr (path, f) ↦
            let set = laws.same setting path s.vm in
            elim (Option-cases (test path disk)) [
              | inl g ↦ rw (e, f, set, g) tt
              | inr (true, g) ↦
                  rw (e, f, set, g)
                    ((remark-Leaves (λ vm. IsChecked lib disk setting test vm × P vm)
                        (lib.defaulted shown (lib.set_path setting path s.vm)) _).at
                      _
                      (
                        record {
                          given = given;
                          path = path;
                          is_canonical = f;
                          is_set = set;
                          passes = g;
                        },
                        keep path s.vm p,
                      ))
              | inr (false, g) ↦ rw (e, f, set, g) tt
            ]
      ]
    ];
  }

  abbrev Nothing : lib.Values → Type 0
  Nothing vm = Unit

  root-other : backup_root ≢ credentials_file
  root-other e = cc

  root-other_log : backup_root ≢ logger_file
  root-other_log e = cc

  credentials-other : credentials_file ≢ logger_file
  credentials-other e = cc

  abbrev RootChecked : lib.Values → Type 0
  RootChecked vm = IsChecked lib disk backup_root lib.is_directory vm × Unit {0}

  abbrev FileChecked : lib.Values → Type 0
  FileChecked vm = IsChecked lib disk credentials_file lib.is_regular_file vm × RootChecked vm

  abbrev LogChecked : lib.Values → Type 0
  LogChecked vm = IsChecked lib disk logger_file lib.is_regular_file vm × FileChecked vm

  all_checked : (vm : lib.Values) → LogChecked vm → AllChecked lib disk vm
  all_checked vm h = record { root = h.1.1.0; credentials = h.1.0; log = h.0 }

  check_paths-Leaves : Leaves Nothing (check_paths lib disk) LogChecked
  unfolding check_paths
  check_paths-Leaves =
      Triple-bind _ _ _ _ _ _ (check_path-Leaves Nothing _ _ _ _ (λ p vm h. h)) λ _.
        Triple-bind _ _ _ _ _ _
          (check_path-Leaves RootChecked _ _ _ _
            (λ p vm h. (IsChecked-set_path _ _ _ p vm (λ e. root-other (sym e)) h.0, tt)))
          λ _. check_path-Leaves FileChecked _ _ _ _ (λ p vm h. (
            IsChecked-set_path _ _ _ p vm (λ e. credentials-other (sym e)) h.0,
            (IsChecked-set_path _ _ _ p vm (λ e. root-other_log (sym e)) h.1.0, tt),
          ))

  -- The result of `parse` where help is asked for, and where it is not.
  abbrev pub Fits : Bool → Option lib.Values → Parsing lib → Type 0
  Fits true none s = Unit
  Fits true (some vm) s = ⊥
  Fits false none s = ⊥
  Fits false (some vm) s = AllChecked lib disk vm

  abbrev Leads {κ} : {A : Type κ} → Exec (Parsing lib) A → (A → Parsing lib → Type 0) → Type 0
  Leads m Q = Triple (λ _. Unit {0}) m Q (λ _. Unit {0})

  trivially {κ} : {A : Type κ} (m : Exec (Parsing lib) A) → Leads m (λ _ _. Unit {0})
  trivially m = record { at = λ s h. After-unit _ _ }

  parse_rest-Fits : Leads (parse_rest lib disk) (Fits false)
  unfolding parse_rest gets
  parse_rest-Fits =
      Triple-bind _ (λ _ _. Unit {0}) _ _ _ _ (trivially _)
        λ _.
          Triple-bind _ (λ _ _. Unit {0}) _ _ _ _ (trivially _)
            λ vm.
              Triple-bind _ (λ _ _. Unit {0}) _ _ _ _ (trivially _)
                λ _. Triple-bind _ _ _ _ _ _ check_paths-Leaves λ _.
                  Triple-bind _ (λ vm s. LogChecked s.vm) _ _ _ _ (record { at = λ s h. h })
                    λ vm.
                      Triple-bind _ (λ _ s. LogChecked s.vm) _ _ _ _ (remark-Leaves LogChecked _ _)
                        λ _. record { at = λ s. all_checked s.vm }

  branch-Fits :
      (help asked : Bool) (m n : Exec (Parsing lib) (Option lib.Values))
      → Leads m (Fits true)
      → Leads n (Fits false)
      → Triple (λ _. help ≡ asked) (if help then m else n) (Fits asked) (λ _. Unit {0})
  branch-Fits true true m n hm hn = record { at = λ s e. hm.at s tt }
  branch-Fits false false m n hm hn = record { at = λ s e. hn.at s tt }
  branch-Fits true false m n hm hn = record { at = λ s e. absurd (true-false e) }
  branch-Fits false true m n hm hn = record { at = λ s e. absurd (true-false (sym e)) }

  store-asks :
      (arguments : List (List ℕ)) (b : Bool)
      → Triple
          (λ s. asks_help lib arguments s ≡ b)
          (store lib (lib.store_command_line arguments))
          (λ _ s. lib.has_help s.vm ≡ b)
          (λ _. Unit {0})
  unfolding store or_throw asks_help gets lift modify ◌>>=◌
  store-asks arguments b = record {
    at = λ s h. elim (Option-cases (lib.store_command_line arguments s.vm)) [
      | inl e ↦ rw e tt
      | inr (vm, e) ↦ rw e (rw (asks_help, e) at h)
    ];
  }

  parse-Fits :
      (arguments : List (List ℕ)) (b : Bool)
      → Triple
          (λ s. asks_help lib arguments s ≡ b)
          (parse lib disk arguments)
          (Fits b)
          (λ _. Unit {0})
  unfolding parse pure gets
  parse-Fits arguments b = Triple-bind _ _ _ _ _ _ (store-asks arguments b) λ _.
      Triple-bind _ (λ vm _. lib.has_help vm ≡ b) _ _ _ _ (record { at = λ s h. h })
        λ vm.
          branch-Fits (lib.has_help vm) b _ _
            (Triple-bind _ (λ _ _. Unit {0}) _ _ _ _ (trivially _) λ _. record { at = λ s h. tt })
            parse_rest-Fits

  caught-Fits :
      (b : Bool) (r : Outcome (Option lib.Values) × Parsing lib)
      → After (Fits b) (λ _. Unit {0}) r
      → After (Fits b) (λ _. Unit {0}) (handle_any r (give_up lib parsing_failed))
  unfolding give_up ◌>>=◌ note modify lift
  caught-Fits b (ok a, t) q = q
  caught-Fits b (throws e, t) q = tt
  caught-Fits b (exits, t) q = tt
  caught-Fits b (fault, t) q = tt
  caught-Fits b (stuck, t) q = tt

  pub parse_options-Fits :
      (arguments : List (List ℕ)) (s : Parsing lib) (b : Bool)
      → asks_help lib arguments s ≡ b
      → After (Fits b) (λ _. Unit {0}) (parse_options lib disk arguments s)
  unfolding parse_options try_any
  parse_options-Fits arguments s b h =
      caught-Fits b (parse lib disk arguments s) ((parse-Fits arguments b).at s h)

  -- Where help is asked for, it is printed and the program is to end with success.
  pub parse_options-help :
      (arguments : List (List ℕ)) (s : Parsing lib)
      → asks_help lib arguments s ≡ true
      → (parse_options lib disk arguments s).0 ≡ ok none
  unfolding parse_options try_any parse store or_throw asks_help note gets lift modify pure ◌>>=◌
  parse_options-help arguments s h = elim (Option-cases (lib.store_command_line arguments s.vm)) [
    | inl e ↦ absurd (true-false (sym (rw (asks_help, e) at h)))
    | inr (vm, e) ↦
        let help : lib.has_help vm ≡ true = rw (asks_help, e) at h in simp (e, help) refl
  ]
