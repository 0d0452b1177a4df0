-- ===== src/Control/Groups.antt =====
-- server.c: for whom the started service runs.
use rt_csp.Base.{ℕ, ◌≡◌, ◌≢◌, refl, true, false, Option, some, pos}
use rt_csp.Control.{Credentials, Answers, is_negative, run_child, forked, server_start}

-- A child that is started by root for another user, with a group of its own: if `setuid` of root sets
-- the user, and `setgid` of another user leaves the group as it is unless it asks for that group, the
-- service runs for that user, but still in the group of root.
pub server_start-gid :
    (a : Answers) (file : Option ℕ) (pw_uid pw_gid : ℕ)
    → ((u g : ℕ) → a.setuid u (record { uid = 0; gid = g }) ≡ record { uid = u; gid = g })
    → ((g : ℕ) (c : Credentials) → c.uid ≢ 0 → g ≢ c.gid → a.setgid g c ≡ c)
    → is_negative a.socket ≡ false
    → is_negative a.bind ≡ false
    → is_negative a.listen ≡ false
    → a.fork ≡ pos 0
    → a.pwnam ≡ some (pw_uid, pw_gid)
    → pw_uid ≢ 0
    → pw_gid ≢ 0
    → ((server_start a (record { uid = 0; gid = 0 }) file).serves ≡ true)
      × ((server_start a (record { uid = 0; gid = 0 }) file).credentials
          ≡ record { uid = pw_uid; gid = 0 })
unfolding server_start forked run_child
server_start-gid a file pw_uid pw_gid uids gids s b l child user other group =
    let c : Credentials = record { uid = pw_uid; gid = 0 } in
    rw (s, b, l, child, user, uids pw_uid 0, gids pw_gid c other group) (refl, refl)
