-- ===== src/Database/Config.antt =====
-- What the configuration file makes of the settings.
use rt_csp.Base.{
  Bool, ◌==◌, not, ℕ, zero, suc, ◌≡◌, refl, ap, sym, Option, none, some, List, [], ◌∷◌, codes, ℤ,
  pos, negsuc,
}
use mathlib.Core.Path.{subst}
use rt_csp.Database.{
  Settings, KeyFile, Reading, read_text, read_port, read_keys, read_config, g_print_error,
  with_error, invalid_value, no_entry, ◌>>=◌, loaded,
}

-- A value of the file, or else the one that is there.
abbrev pub or_default : Option (List ℕ) → List ℕ → List ℕ
or_default none s = s
or_default (some v) s = v

abbrev pub port_or : ℤ → ℕ → ℕ
port_or (pos zero) n = n
port_or (pos (suc m)) n = suc m
port_or (negsuc m) n = n

-- The settings by the file, key by key.
abbrev pub configured : KeyFile → Settings → Settings
configured file s = record {
  host = or_default (file.text (codes "host")) s.host;
  user = or_default (file.text (codes "user")) s.user;
  passwd = or_default (file.text (codes "passwd")) s.passwd;
  database = or_default (file.text (codes "database")) s.database;
  port = port_or (file.number (codes "port")) s.port;
  socket = or_default (file.text (codes "socket")) s.socket;
  charset = or_default (file.text (codes "charset")) s.charset;
}

abbrev cons_if : Option (List ℕ) → List (List ℕ) → List (List ℕ)
cons_if none o = o
cons_if (some v) o = v ∷ o

-- The strings that the file gave, the last one first.
abbrev pub strings_of : KeyFile → List (List ℕ)
strings_of file = cons_if (file.text (codes "charset")) (
    cons_if (file.text (codes "socket")) (
      cons_if (file.text (codes "database")) (
        cons_if (file.text (codes "passwd"))
          (cons_if (file.text (codes "user")) (cons_if (file.text (codes "host")) [])))))

-- glib was never called with an error pending and none is pending; the settings and the strings to
-- free are these.
abbrev pub IsRead : Settings → List (List ℕ) → Option Reading → Type 0
IsRead s o none = ⊥
IsRead s o (some r) = (r.error ≡ none) × (r.settings ≡ s) × (r.owned ≡ o)

abbrev put_if : Option (List ℕ) → (List ℕ → Settings → Settings) → Settings → Settings
put_if none put s = s
put_if (some v) put s = put v s

read_text-IsRead :
    (file : KeyFile) (key : List ℕ) (put : List ℕ → Settings → Settings) (s : Settings)
    (o : List (List ℕ)) (m : Option Reading)
    → IsRead s o m
    → IsRead
        (put_if (file.text key) put s)
        (cons_if (file.text key) o)
        (m >>= read_text file key put)
unfolding read_text
read_text-IsRead file key put s o none h = absurd h
read_text-IsRead file key put s o (some r) h = go (file.text key) (file.error_of key)
  where
    go :
        (t : Option (List ℕ)) (e : Option ℕ)
        → IsRead (put_if t put s) (cons_if t o) (elim (with_error e r) [
          | none ↦ none
          | some q ↦ some (
              g_print_error key
                (λ code. code == invalid_value)
                (elim t [
                  | none ↦ q
                  | some v ↦ record q { settings = put v q.settings; owned = v ∷ q.owned }
                ]))
        ])
    go none none = rw (h.0, with_error) (refl, h.1, h.2)
    go none (some e) = rw (h.0, with_error) (refl, h.1, h.2)
    go (some v) none = rw (h.0, with_error) (refl, ap (put v) h.1, ap (λ t. v ∷ t) h.2)
    go (some v) (some e) = rw (h.0, with_error) (refl, ap (put v) h.1, ap (λ t. v ∷ t) h.2)

put_or :
    (t : Option (List ℕ)) (put : List ℕ → Settings → Settings) (old : List ℕ) (s : Settings)
    → put old s ≡ s
    → put_if t put s ≡ put (or_default t old) s
put_or none put old s e = sym e
put_or (some v) put old s e = refl

-- A text of the file, or the old one.
text_read :
    (file : KeyFile) (key : List ℕ) (put : List ℕ → Settings → Settings) (old : List ℕ)
    (s : Settings) (o : List (List ℕ)) (m : Option Reading)
    → put old s ≡ s
    → IsRead s o m
    → IsRead
        (put (or_default (file.text key) old) s)
        (cons_if (file.text key) o)
        (m >>= read_text file key put)
text_read file key put old s o m e h =
    subst (λ z. IsRead z (cons_if (file.text key) o) (m >>= read_text file key put))
      (put_or (file.text key) put old s e) (read_text-IsRead file key put s o m h)

abbrev put_port : ℤ → Settings → Settings
put_port n s = record s { port = port_or n s.port }

read_port-IsRead :
    (file : KeyFile) (s : Settings) (o : List (List ℕ)) (m : Option Reading)
    → IsRead s o m
    → IsRead (put_port (file.number (codes "port")) s) o (m >>= read_port file)
unfolding read_port
read_port-IsRead file s o none h = absurd h
read_port-IsRead file s o (some r) h =
    go (file.number (codes "port")) (file.error_of (codes "port"))
  where
    go :
        (n : ℤ) (e : Option ℕ)
        → IsRead (put_port n s) o (elim (with_error e r) [
          | none ↦ none
          | some q ↦ some (
              g_print_error
                (codes "port")
                (λ code. code == invalid_value)
                (elim n [
                  | pos zero ↦ q
                  | pos (suc k) ↦ record q { settings = record q.settings { port = suc k } }
                  | negsuc k ↦ q
                ]))
        ])
    go (pos zero) none = rw (h.0, with_error) (refl, h.1, h.2)
    go (pos zero) (some e) = rw (h.0, with_error) (refl, h.1, h.2)
    go (pos (suc k)) none = rw (h.0, with_error) (refl, ap (put_port (pos (suc k))) h.1, h.2)
    go (pos (suc k)) (some e) = rw (h.0, with_error) (refl, ap (put_port (pos (suc k))) h.1, h.2)
    go (negsuc k) none = rw (h.0, with_error) (refl, h.1, h.2)
    go (negsuc k) (some e) = rw (h.0, with_error) (refl, h.1, h.2)

print-IsRead :
    (msg : List ℕ) (shown : ℕ → Bool) (s : Settings) (o : List (List ℕ)) (m : Option Reading)
    → IsRead s o m
    → IsRead s o (m >>= λ r. some (g_print_error msg shown r))
unfolding g_print_error
print-IsRead msg shown s o none h = absurd h
print-IsRead msg shown s o (some r) h = rw (h.0, g_print_error) (h.0, h.1, h.2)

-- What is read with the file there.
read_keys-IsRead :
    (file : KeyFile) (s : Settings) (r : Reading)
    → IsRead s [] (some r)
    → IsRead (configured file s) (strings_of file) (read_keys file r)
unfolding read_keys
read_keys-IsRead file s r h =
    text_read file (codes "charset") (λ v t. record t { charset = v }) s.charset _ _ _ refl
      (text_read file (codes "socket") (λ v t. record t { socket = v }) s.socket _ _ _ refl
        (read_port-IsRead file _ _ _ (
          text_read file (codes "database") (λ v t. record t { database = v }) s.database _ _ _ refl
            (text_read file (codes "passwd") (λ v t. record t { passwd = v }) s.passwd _ _ _ refl
              (text_read file (codes "user") (λ v t. record t { user = v }) s.user _ _ _ refl
                (text_read file (codes "host") (λ v t. record t { host = v }) s.host s [] (some r)
                  refl h))))))

failed :
    (file : KeyFile) (s : Settings) (code : ℕ)
    → IsRead s [] (
        loaded file s (some code) >>= λ r.
        some (g_print_error (codes "rtcsp.ini") (λ c. not (c == no_entry)) r))
unfolding g_print_error
failed file s code = (refl, refl, refl)

-- mod_my_start never calls glib with an error pending, and leaves none: every error is freed. With a
-- file that can be read each setting is the one that the file has under its key, the port only if it
-- is positive, or else as it was, and the strings that are to be freed at the end are those that the
-- file gave, each once. With none all settings are as they were, and nothing is to be freed.
pub read_config-IsRead :
    (file : KeyFile) (s : Settings)
    → IsRead
        (elim file.load_error [ none ↦ configured file s | some code ↦ s ])
        (elim file.load_error [ none ↦ strings_of file | some code ↦ [] ])
        (read_config file s)
unfolding read_config
read_config-IsRead file s = go file.load_error
  where
    go :
        (e : Option ℕ)
        → IsRead
            (elim e [ none ↦ configured file s | some code ↦ s ])
            (elim e [ none ↦ strings_of file | some code ↦ [] ])
            (loaded file s e >>= λ r.
              some (g_print_error (codes "rtcsp.ini") (λ code. not (code == no_entry)) r))
    go none =
        print-IsRead (codes "rtcsp.ini") (λ code. not (code == no_entry)) _ _ _
          (read_keys-IsRead file s (record { settings = s; owned = []; error = none; printed = [] })
            (refl, refl, refl))
    go (some code) = failed file s code
