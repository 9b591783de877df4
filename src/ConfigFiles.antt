-- ===== src/ConfigFiles.antt =====
-- internal/config/files.go: the paths of the certificates and of the ACL files. `config_dir` is what
-- os.Getenv gives for CONFIG_DIR, `home` what os.UserHomeDir gives, `join` is filepath.Join.
use aphros.Base.{ℕ, ◌≡◌, refl, ap, ◌∙◌, true, false, List, [], ◌∷◌, if◌then◌else◌}
use aphros.Base.Strings.{bytes_of}
use aphros.Result.{Error, panic, Result, ok, err}
use aphros.Tls.{is_empty}

module _ (config_dir : List ℕ) (home : Result (List ℕ)) (join : List (List ℕ) → List ℕ) where
  abbrev in_home : Result (List ℕ) → List ℕ → Result (List ℕ)
  in_home (err x) name = err panic
  in_home (ok dir) name = ok (join (dir ∷ bytes_of ".aphros" ∷ name ∷ []))

  pub config_file : List ℕ → Result (List ℕ)
  config_file name =
      if is_empty config_dir then in_home home name else ok (join (config_dir ∷ name ∷ []))

  -- The variables of the package, in their order; the initialisation panics with the first that does.
  abbrev pub file_names : List (List ℕ)
  file_names =
      bytes_of "ca.pem"
      ∷ bytes_of "server.pem"
      ∷ bytes_of "server-key.pem"
      ∷ bytes_of "client.pem"
      ∷ bytes_of "client-key.pem"
      ∷ bytes_of "root-client.pem"
      ∷ bytes_of "root-client-key.pem"
      ∷ bytes_of "nobody-client.pem"
      ∷ bytes_of "nobody-client-key.pem"
      ∷ bytes_of "model.conf"
      ∷ bytes_of "policy.csv"
      ∷ []

  abbrev with_file : Result (List ℕ) → Result (List (List ℕ)) → Result (List (List ℕ))
  with_file (err x) rest = err x
  with_file (ok p) (err x) = err x
  with_file (ok p) (ok ps) = ok (p ∷ ps)

  pub config_files : List (List ℕ) → Result (List (List ℕ))
  config_files [] = ok []
  config_files (name ∷ rest) = with_file (config_file name) (config_files rest)

  abbrev in_dir : List ℕ → List (List ℕ) → List (List ℕ)
  in_dir dir [] = []
  in_dir dir (name ∷ rest) = join (dir ∷ name ∷ []) ∷ in_dir dir rest

  -- With CONFIG_DIR set, no file needs a home directory, and every one is in that directory.
  pub config_files-in_dir :
      (names : List (List ℕ))
      → is_empty config_dir ≡ false
      → config_files names ≡ ok (in_dir config_dir names)
  unfolding config_files config_file
  config_files-in_dir [] set = refl
  config_files-in_dir (name ∷ rest) set =
      let here : config_file name ≡ ok (join (config_dir ∷ name ∷ [])) = rw set refl in
      ap (λ p. with_file p (config_files rest)) here
      ∙ ap (with_file (ok (join (config_dir ∷ name ∷ [])))) (config_files-in_dir rest set)

  -- Without CONFIG_DIR and without a home directory, the package panics where it is loaded.
  pub config_files-panics :
      (x : Error) (name : List ℕ) (rest : List (List ℕ))
      → is_empty config_dir ≡ true
      → home ≡ err x
      → config_files (name ∷ rest) ≡ err panic
  unfolding config_files config_file
  config_files-panics x name rest unset missing =
      let here : config_file name ≡ err panic = rw unset (rw missing refl) in
      ap (λ p. with_file p (config_files rest)) here
