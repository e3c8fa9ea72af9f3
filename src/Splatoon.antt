-- ===== src/Splatoon.antt =====
-- The matchmaking of nex/splatoon/splatoonSecure.cpp over the local shared state. A handler reads and
-- writes the shared state, through the pointers that it gets from it as well, and says in order what
-- it sends. The calls of the shared state are complete at once, so nothing happens between them.
pub mod Participation
pub mod Join
pub mod Leave
pub mod Queries
use splatit.Base.{
  ℕ, ◌%◌, ◌^◌, Bool, true, false, not, Option, none, some, List, [], ◌∷◌, ◌++◌, ◌==◌, if◌then◌else◌,
  length, is_empty,
}
use splatit.Base.Bytes.{Bytes}
use splatit.Base.Dict.{lookup, nat_eq}
use splatit.Base.Sets.{set_erase, has}
use splatit.Rmc.Request.{Request}
use splatit.Nex.Matchmake.Gathering.{Gathering}
use splatit.Nex.Matchmake.Session.{MatchmakeSession}
use splatit.SharedState.{
  Local, RmcClient, SplatoonClient, SessionInfo, StationUrl, write_at, with_count,
}
use splatit.SharedState.Sessions.{set_session, delete_session, pointed}

-- The types of notification that the handlers send.
pub data NotificationType : Type 0 where
  new_participant participation_ended participant_disconnected : NotificationType
  ownership_changed host_changed gathering_unregistered : NotificationType

-- The errors of nex/rmc/errors.hpp that the handlers answer with.
abbrev pub not_authenticated : ℕ
not_authenticated = 196610

abbrev pub invalid_gid : ℕ
invalid_gid = 196717

abbrev pub session_full : ℕ
session_full = 196808

abbrev pub password_unmatch : ℕ
password_unmatch = 196821

abbrev pub user_is_offline : ℕ
user_is_offline = 196823

abbrev pub permission_denied : ℕ
permission_denied = 196825

abbrev pub session_void : ℕ
session_void = 196723

abbrev pub session_closed : ℕ
session_closed = 196827

-- What a response carries: nothing, an error, or one or two objects.
pub data Answer (Time : Type 0) : Type 0 where
  done : Answer Time
  truth : Bool → Answer Time
  failed : ℕ → Answer Time
  session_of : MatchmakeSession Time → Answer Time
  gathering_of : Bool → Gathering → Answer Time
  urls_of : List StationUrl → Answer Time

-- `sendNotification` and `sendMsg`
pub data Event (Time : Type 0) : Type 0 where
  notify : RmcClient → NotificationType → ℕ → ℕ → ℕ → Bytes → ℕ → Event Time
  reply : RmcClient → Request → Answer Time → Event Time

-- `*players.begin()`
abbrev pub first_of : List ℕ → ℕ
first_of [] = 0
first_of (pid ∷ pids) = pid

module _ {Time : Type 0} where
  -- A write through a pointer that the shared state gave.
  abbrev pub edit :
      Local Time → Option ℕ → (MatchmakeSession Time → MatchmakeSession Time) → Local Time
  edit s none f = s
  edit s (some a) f = record s { heap = write_at f s.heap a }

  abbrev pub edit_if :
      Bool → Local Time → Option ℕ → (MatchmakeSession Time → MatchmakeSession Time) → Local Time
  edit_if test s pointer f = if test then edit s pointer f else s

  abbrev pub with_owner : ℕ → MatchmakeSession Time → MatchmakeSession Time
  with_owner pid o = record o { gathering = record o.gathering { owner_pid = pid } }

  abbrev pub with_host : ℕ → MatchmakeSession Time → MatchmakeSession Time
  with_host pid o = record o { gathering = record o.gathering { host_pid = pid } }

  -- A notification to a client that is registered, of which only its connection is used.
  abbrev pub notify_found : Option SplatoonClient → (RmcClient → Event Time) → List (Event Time)
  notify_found none event = []
  notify_found (some c) event = event c.client ∷ []

  -- A notification to each of these that is registered.
  abbrev pub notify_all : Local Time → List ℕ → (RmcClient → Event Time) → List (Event Time)
  notify_all s [] event = []
  notify_all s (pid ∷ pids) event =
      notify_found (lookup pid s.splatoon_clients) event ++ notify_all s pids event

  unfoldable pub unregister_found :
      Local Time → ℕ → ℕ → Option SessionInfo → Local Time × List (Event Time)
  unregister_found s g src none = (s, [])
  unregister_found s g src (some info) = (
    (delete_session s g).1,
    notify_all s info.players (λ c. notify c gathering_unregistered src g 0 [] 0),
  )

  -- `unregisterGathering_internal`
  unfoldable pub unregister_gathering : Local Time → ℕ → ℕ → Local Time × List (Event Time)
  unregister_gathering s g src = unregister_found s g src (lookup g s.sessions)

  -- The session of the players that are left: a player that has gone hands over what it had.
  unfoldable pub hand_over :
      Local Time → ℕ → SessionInfo → MatchmakeSession Time → List ℕ → Local Time
  hand_over s pid info o players =
      let t =
        edit_if (o.gathering.owner_pid == pid) s info.session (with_owner (first_of players)) in
      let u = edit_if (o.gathering.host_pid == pid) t info.session (with_host (first_of players)) in
      (set_session u (record { session = info.session; players = players })).1

  -- What the players that are left are told, at a time that is given as text.
  unfoldable pub hand_over_events :
      Local Time → ℕ → MatchmakeSession Time → List ℕ → Bytes → Bool → Bytes → List (Event Time)
  hand_over_events s pid o players msg disconnected now =
      let id = o.gathering.id in
      let first = first_of players in
      let owner = lookup o.gathering.owner_pid s.splatoon_clients in
      let ended = if disconnected then participant_disconnected else participation_ended in
      notify_found owner (λ c. notify c ended pid id pid msg 0)
      ++ ((if o.gathering.owner_pid == pid
            then notify_all s players (λ c. notify c ownership_changed pid id first now 0)
            else [])
          ++ (if o.gathering.host_pid == pid
              then notify_all s players (λ c. notify c host_changed pid id first [] 0)
              else []))

  -- The part behind the checks.
  unfoldable pub remove_registered :
      Local Time
      → ℕ
      → ℕ
      → Bytes
      → Bool
      → Bytes
      → SessionInfo
      → MatchmakeSession Time
      → SplatoonClient
      → Local Time × List (Event Time)
  remove_registered s g pid msg disconnected now info o c =
      let players = set_erase pid info.players in
      let told =
        if disconnected
        then []
        else notify c.client participation_ended pid o.gathering.id pid msg 0 ∷ [] in
      let t = edit s info.session (with_count (length players % 2 ^ 32)) in
      let gone = unregister_gathering t g pid in
      if is_empty players then (gone.0, told ++ gone.1) else (
        hand_over t pid info o players,
        told ++ hand_over_events t pid o players msg disconnected now,
      )

  -- A stored session always has an object; a null pointer, which is undefined, changes nothing here.
  unfoldable pub remove_member :
      Local Time
      → ℕ
      → ℕ
      → Bytes
      → Bool
      → Bytes
      → SessionInfo
      → Option (MatchmakeSession Time)
      → Option SplatoonClient
      → Local Time × List (Event Time)
  remove_member s g pid msg disconnected now info none c = (s, [])
  remove_member s g pid msg disconnected now info (some o) none = (s, [])
  remove_member s g pid msg disconnected now info (some o) (some c) =
      remove_registered s g pid msg disconnected now info o c

  unfoldable pub remove_found :
      Local Time
      → ℕ
      → ℕ
      → Bytes
      → Bool
      → Bytes
      → Option SessionInfo
      → Local Time × List (Event Time)
  remove_found s g pid msg disconnected now none = (s, [])
  remove_found s g pid msg disconnected now (some info) =
      if has pid info.players
      then remove_member s g pid msg disconnected now info (pointed s info.session)
          (lookup pid s.splatoon_clients)
      else (s, [])

  -- `removePlayerFromSession`
  unfoldable pub remove_player_from_session :
      Local Time → ℕ → ℕ → Bytes → Bool → Bytes → Local Time × List (Event Time)
  remove_player_from_session s g pid msg disconnected now =
      remove_found s g pid msg disconnected now (lookup g s.sessions)
