-- ===== src/Database.antt =====
-- mod_my.c and mod_my.h: the settings of the database from the configuration file, and the calls of the
-- MySQL client library that the module makes. What glib and the library answer is an argument.
pub mod Config
pub mod Handles
pub mod Query
pub mod Schedule
use rt_csp.Base.{
  ℕ, zero, suc, ◌+◌, Bool, true, false, not, Option, none, some, List, [], ◌∷◌, ◌++◌, ◌==◌,
  if◌then◌else◌, length, leb, codes, ℤ, pos, negsuc,
}

-- mod_my_host to mod_my_charset.
pub record Settings : Type 0 where
  pub host : List ℕ
  pub user : List ℕ
  pub passwd : List ℕ
  pub database : List ℕ
  pub port : ℕ
  pub socket : List ℕ
  pub charset : List ℕ

-- `socket` is MYSQL_UNIX_ADDR, which the library defines.
abbrev pub defaults : List ℕ → Settings
defaults socket = record {
  host = codes "localhost";
  user = codes "root";
  passwd = [];
  database = codes "rtcsp";
  port = 3306;
  socket = socket;
  charset = codes "utf8";
}

-- The configuration file: the code of the error of g_key_file_load_from_file, if there is one, and for
-- each key of the group "my" what the calls give and the code of the error that they set.
pub record KeyFile : Type 0 where
  pub load_error : Option ℕ
  pub text : List ℕ → Option (List ℕ)
  pub number : List ℕ → ℤ
  pub error_of : List ℕ → Option ℕ

-- The variables of mod_my_start: the settings, the strings that ht_main_free is to free, `error`, and
-- the keys whose message was printed.
pub record Reading : Type 0 where
  pub settings : Settings
  pub owned : List (List ℕ)
  pub error : Option ℕ
  pub printed : List (List ℕ)

-- G_KEY_FILE_ERROR_INVALID_VALUE and G_FILE_ERROR_NOENT
abbrev pub invalid_value : ℕ
invalid_value = 5

abbrev pub no_entry : ℕ
no_entry = 4

-- g_print_error: an error is shown if its code passes the test, freed, and cleared.
unfoldable pub g_print_error : List ℕ → (ℕ → Bool) → Reading → Reading
g_print_error msg shown r = elim r.error [
  | none ↦ r
  | some code ↦ record r {
    error = none;
    printed = if shown code then r.printed ++ msg ∷ [] else r.printed;
  }
]

-- A call of glib that gets `&error` must find NULL in it.
unfoldable pub with_error : Option ℕ → Reading → Option Reading
with_error e r = elim r.error [ none ↦ some (record r { error = e }) | some old ↦ none ]

-- g_key_file_get_string for a key, and what is done with its result.
unfoldable pub read_text :
    KeyFile → List ℕ → (List ℕ → Settings → Settings) → Reading → Option Reading
unfolding g_print_error with_error
read_text file key put r = elim (with_error (file.error_of key) r) [
  | none ↦ none
  | some q ↦ some (
      g_print_error key (λ code. code == invalid_value)
        (elim (file.text key) [
          | none ↦ q
          | some s ↦ record q { settings = put s q.settings; owned = s ∷ q.owned }
        ]))
]

unfoldable pub read_port : KeyFile → Reading → Option Reading
unfolding g_print_error with_error
read_port file r = elim (with_error (file.error_of (codes "port")) r) [
  | none ↦ none
  | some q ↦ some (
      g_print_error (codes "port") (λ code. code == invalid_value)
        (elim (file.number (codes "port")) [
          | pos zero ↦ q
          | pos (suc n) ↦ record q { settings = record q.settings { port = suc n } }
          | negsuc n ↦ q
        ]))
]

infixl 5 ◌>>=◌
abbrev pub ◌>>=◌ : Option Reading → (Reading → Option Reading) → Option Reading
none >>= f = none
some r >>= f = f r

-- The keys of the file, in order.
unfoldable pub read_keys : KeyFile → Reading → Option Reading
read_keys file r =
    read_text file (codes "host") (λ v t. record t { host = v }) r
    >>= read_text file (codes "user") (λ v t. record t { user = v })
    >>= read_text file (codes "passwd") (λ v t. record t { passwd = v })
    >>= read_text file (codes "database") (λ v t. record t { database = v })
    >>= read_port file
    >>= read_text file (codes "socket") (λ v t. record t { socket = v })
    >>= read_text file (codes "charset") (λ v t. record t { charset = v })

-- The keys are read if g_key_file_load_from_file gives no error.
abbrev pub loaded : KeyFile → Settings → Option ℕ → Option Reading
loaded file s none =
    read_keys file (record { settings = s; owned = []; error = none; printed = [] })
loaded file s (some code) =
    some (record { settings = s; owned = []; error = some code; printed = [] })

-- The part of mod_my_start that reads the file.
unfoldable pub read_config : KeyFile → Settings → Option Reading
read_config file s = loaded file s file.load_error >>= λ r.
    some (g_print_error (codes "rtcsp.ini") (λ code. not (code == no_entry)) r)
