-- ===== src/Session.antt =====
-- models/session.c and models/session.h: a session, the row of a table, as an object of the serializer.
use rt_csp.Base.{ℕ, ◌^◌, ◌<◌, ◌≤◌, ◌≡◌, refl, List, ◌++◌, length, arith, codes, ℤ}
use rt_csp.Serialize.{
  Format, Formats, end, field, scalar, uint, int, string_length, object, Value, serialize_string_ex,
}
use rt_csp.Serialize.Elements.{read}
use rt_csp.Serialize.Parse.{blank, _serialize_parse}
use rt_csp.Serialize.Objects.{AreKeys, are_keys-AreKeys}
use rt_csp.Serialize.Scalars.{IsScalar}
use rt_csp.Serialize.Values.{_serialize_parse-value}

-- table_session_t. A text stands with its length for the array and the `_length` beside it.
pub record Session : Type 0 where
  pub sess_id : ℤ
  pub sockfd : ℤ
  pub host : List ℕ
  pub port : ℤ
  pub tid : ℤ
  pub dateline : ℤ
  pub create_time : List ℕ
  pub uid : ℤ
  pub login_dateline : ℤ
  pub login_time : List ℕ
  pub logout_dateline : ℤ
  pub logout_time : List ℕ

abbrev pub session_formats : Formats
session_formats = field (codes "sessId") (scalar uint) (
    field (codes "sockfd") (scalar int) (
      field (codes "host") (string_length 15) (
        field (codes "port") (scalar uint) (
          field (codes "tid") (scalar uint) (
            field (codes "dateline") (scalar int) (
              field (codes "createTime") (string_length 19) (
                field (codes "uid") (scalar uint) (
                  field (codes "loginDateline") (scalar int) (
                    field (codes "loginTime") (string_length 19) (
                      field (codes "logoutDateline") (scalar int)
                        (field (codes "logoutTime") (string_length 19) end)))))))))))

abbrev pub session_format : Format
session_format = object session_formats

-- The session as the memory that the formats describe.
abbrev pub row_of : Session → Value session_format
row_of s = (
  s.sess_id,
  (
    s.sockfd,
    (
      s.host,
      (
        s.port,
        (
          s.tid,
          (
            s.dateline,
            (
              s.create_time,
              (s.uid, (s.login_dateline, (s.login_time, (s.logout_dateline, (s.logout_time, tt))))),
            ),
          ),
        ),
      ),
    ),
  ),
)

-- Each number has its type, and each text fits its array.
abbrev pub IsSession : Session → Type 0
IsSession s =
    (IsScalar uint s.sess_id
      × IsScalar int s.sockfd
      × length s.host ≤ 15
      × IsScalar uint s.port
      × IsScalar uint s.tid
      × IsScalar int s.dateline
      × length s.create_time ≤ 19
      × IsScalar uint s.uid
      × IsScalar int s.login_dateline
      × length s.login_time ≤ 19
      × IsScalar int s.logout_dateline
      × length s.logout_time ≤ 19)

session_formats-AreKeys : AreKeys session_formats
session_formats-AreKeys = are_keys-AreKeys session_formats refl

-- A session whose numbers have their types and whose texts fit their arrays is written by the
-- serializer and read back into blank memory as it was, whatever follows it in the buffer. `buflen`
-- must be a `length_t` and cover what was written; fuel of 13 is enough.
pub session_format-RoundTrips :
    (junk : (f : Format) → Value f) (s : Session) (rest : List ℕ) (buflen : ℕ)
    → IsSession s
    → buflen < 2 ^ 32
    → length (serialize_string_ex session_format (row_of s)) ≤ buflen
    → _serialize_parse junk 13 session_format
        (blank session_format)
        (serialize_string_ex session_format (row_of s) ++ rest)
        buflen
      ≡ read (row_of s) (length (serialize_string_ex session_format (row_of s)))
session_format-RoundTrips junk s rest buflen h =
    _serialize_parse-value junk 12 session_format (row_of s) rest buflen (
      session_formats-AreKeys,
      omega arith,
      (h.0, (h.1, (h.2, (h.3, (h.4, (h.5, (h.6, (h.7, (h.8, (h.9, (h.10, (h.11, tt)))))))))))),
    )
