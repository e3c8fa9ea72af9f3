-- ===== src/Splatoon/Leave.antt =====
-- What `removePlayerFromSession` of nex/splatoon/splatoonSecure.cpp leaves of a session.
use splatit.Base.{
  ℕ, ◌%◌, ◌^◌, ◌≡◌, ◌⊎◌, inl, inr, refl, sym, subst, ◌∙◌, arith, Bool, true, false, Option, none,
  some, List, [], ◌∷◌, ◌==◌, ==_iff, if◌then◌else◌, length, is_empty, Bool-cases,
}
use splatit.Base.Bytes.{Bytes}
use splatit.Base.Dict.{lookup, nat_eq, lookup-put, lookup-erase}
use splatit.Base.Sets.{set_erase, has, has-set_erase}
use splatit.Nex.Matchmake.Session.{MatchmakeSession}
use splatit.SharedState.{Local, SplatoonClient, SessionInfo, with_count}
use splatit.SharedState.Heap.{object_at-write_at, object_at-new}
use splatit.SharedState.Sessions.{
  set_session, set_given, set_copied, pointed, delete_session, delete_found,
}
use splatit.Splatoon.{
  edit, edit_if, with_owner, with_host, first_of, remove_player_from_session, remove_found,
  remove_member, remove_registered, hand_over, unregister_gathering, unregister_found,
}

has-first_of : (players : List ℕ) → is_empty players ≡ false → has (first_of players) players ≡ true
has-first_of [] some_left = cc
has-first_of (pid ∷ pids) some_left = ground arith

-- Who has left is replaced, and anybody else is still there.
has-replaced :
    (who pid : ℕ) (before : List ℕ)
    → has who before ≡ true
    → is_empty (set_erase pid before) ≡ false
    → has (if who == pid then first_of (set_erase pid before) else who) (set_erase pid before)
      ≡ true
has-replaced who pid before member some_left = elim (Bool-cases (who == pid)) [
  | inl same ↦ rw same (has-first_of (set_erase pid before) some_left)
  | inr apart ↦ rw apart (ground (arith, has-set_erase pid who before, member))
]

module _ {Time : Type 0} where
  abbrev edited :
      Bool
      → (MatchmakeSession Time → MatchmakeSession Time)
      → MatchmakeSession Time
      → MatchmakeSession Time
  edited test f o = if test then f o else o

  pointed-edit :
      (s : Local Time) (p : Option ℕ) (f : MatchmakeSession Time → MatchmakeSession Time)
      (o : MatchmakeSession Time)
      → pointed s p ≡ some o
      → pointed (edit s p f) p ≡ some (f o)
  unfolding pointed
  pointed-edit s none f o there = cc
  pointed-edit s (some a) f o there = object_at-write_at f s.heap a o there

  pointed-edit_if :
      (test : Bool) (s : Local Time) (p : Option ℕ)
      (f : MatchmakeSession Time → MatchmakeSession Time) (o : MatchmakeSession Time)
      → pointed s p ≡ some o
      → pointed (edit_if test s p f) p ≡ some (edited test f o)
  pointed-edit_if true s p f o there = pointed-edit s p f o there
  pointed-edit_if false s p f o there = there

  -- A session with an object that is owned and hosted by players, and counts them.
  pub record IsRun (s : Local Time) (g : ℕ) (players : List ℕ) : Type 0 where
    pub info : SessionInfo
    pub object : MatchmakeSession Time
    pub found : lookup g s.sessions ≡ some info
    pub keeps : info.players ≡ players
    pub points : pointed s info.session ≡ some object
    pub same_id : object.gathering.id ≡ g
    pub counts : object.participation_count ≡ length players % 2 ^ 32
    pub owned : has object.gathering.owner_pid players ≡ true
    pub hosted : has object.gathering.host_pid players ≡ true

  set_copied-IsRun :
      (s : Local Time) (players : List ℕ) (o : MatchmakeSession Time)
      → has o.gathering.owner_pid players ≡ true
      → has o.gathering.host_pid players ≡ true
      → IsRun (set_copied s o players) o.gathering.id players
  unfolding set_copied pointed
  set_copied-IsRun s players o owned hosted =
      let g = o.gathering.id in
      let new = with_count (length players % 4294967296) o in
      let info : SessionInfo = record { session = some (length s.heap); players = players } in
      record {
        info = info;
        object = new;
        found = lookup-put g g info s.sessions ∙ rw ((==_iff g g).1 refl) refl;
        keeps = refl;
        points = object_at-new s.heap new;
        same_id = refl;
        counts = refl;
        owned = owned;
        hosted = hosted;
      }

  set_session-IsRun :
      (s : Local Time) (p : Option ℕ) (players : List ℕ) (o : MatchmakeSession Time)
      → pointed s p ≡ some o
      → has o.gathering.owner_pid players ≡ true
      → has o.gathering.host_pid players ≡ true
      → IsRun (set_session s (record { session = p; players = players })).1 o.gathering.id players
  unfolding set_session set_given
  set_session-IsRun s p players o there owned hosted =
      rw there (set_copied-IsRun s players o owned hosted)

  -- Behind both edits, in any case.
  handed : Bool → Bool → ℕ → MatchmakeSession Time → MatchmakeSession Time
  handed owner host first o = edited host (with_host first) (edited owner (with_owner first) o)

  handed-id :
      (owner host : Bool) (first : ℕ) (o : MatchmakeSession Time)
      → (handed owner host first o).gathering.id ≡ o.gathering.id
  unfolding handed
  handed-id true true first o = refl
  handed-id true false first o = refl
  handed-id false true first o = refl
  handed-id false false first o = refl

  handed-owner :
      (owner host : Bool) (first : ℕ) (o : MatchmakeSession Time)
      → (handed owner host first o).gathering.owner_pid
        ≡ (if owner then first else o.gathering.owner_pid)
  unfolding handed
  handed-owner true true first o = refl
  handed-owner true false first o = refl
  handed-owner false true first o = refl
  handed-owner false false first o = refl

  handed-host :
      (owner host : Bool) (first : ℕ) (o : MatchmakeSession Time)
      → (handed owner host first o).gathering.host_pid
        ≡ (if host then first else o.gathering.host_pid)
  unfolding handed
  handed-host true true first o = refl
  handed-host true false first o = refl
  handed-host false true first o = refl
  handed-host false false first o = refl

  hand_over-IsRun :
      (s : Local Time) (pid : ℕ) (info : SessionInfo) (o : MatchmakeSession Time) (before : List ℕ)
      → pointed s info.session ≡ some o
      → has o.gathering.owner_pid before ≡ true
      → has o.gathering.host_pid before ≡ true
      → is_empty (set_erase pid before) ≡ false
      → IsRun (hand_over s pid info o (set_erase pid before)) o.gathering.id (set_erase pid before)
  unfolding hand_over handed
  hand_over-IsRun s pid info o before there owned hosted some_left =
      let players = set_erase pid before in
      let first = first_of players in
      let owner = o.gathering.owner_pid == pid in
      let host = o.gathering.host_pid == pid in
      let t = edit_if owner s info.session (with_owner first) in
      let u = edit_if host t info.session (with_host first) in
      let points =
        pointed-edit_if host t info.session (with_host first) _
          (pointed-edit_if owner s info.session (with_owner first) o there) in
      subst (λ (g : ℕ). IsRun (hand_over s pid info o players) g players)
        (handed-id owner host first o)
        (set_session-IsRun u info.session players (handed owner host first o) points
          (rw (handed-owner owner host first o)
            (has-replaced o.gathering.owner_pid pid before owned some_left))
          (rw (handed-host owner host first o)
            (has-replaced o.gathering.host_pid pid before hosted some_left)))

  delete_session-gone : (s : Local Time) (g : ℕ) → lookup g (delete_session s g).1.sessions ≡ none
  unfolding delete_session
  delete_session-gone s g =
      lookup-erase g g (delete_found s g (lookup g s.sessions)).sessions
      ∙ rw ((==_iff g g).1 refl) refl

  unregister_found-gone :
      (s : Local Time) (g src : ℕ) (found : Option SessionInfo)
      → lookup g s.sessions ≡ found
      → lookup g (unregister_found s g src found).0.sessions ≡ none
  unfolding unregister_found
  unregister_found-gone s g src none seen = seen
  unregister_found-gone s g src (some info) seen = delete_session-gone s g

  abbrev pub Outcome : Local Time → ℕ → List ℕ → Type 0
  Outcome t g players =
      ((is_empty players ≡ true) × (lookup g t.sessions ≡ none))
      ⊎ ((is_empty players ≡ false) × IsRun t g players)

  remove_registered-Outcome :
      (s : Local Time) (g pid : ℕ) (msg : Bytes) (disconnected : Bool) (now : Bytes)
      (info : SessionInfo) (o : MatchmakeSession Time) (c : SplatoonClient)
      → pointed s info.session ≡ some o
      → o.gathering.id ≡ g
      → has o.gathering.owner_pid info.players ≡ true
      → has o.gathering.host_pid info.players ≡ true
      → Outcome
          (remove_registered s g pid msg disconnected now info o c).0
          g
          (set_erase pid info.players)
  unfolding remove_registered unregister_gathering hand_over
  remove_registered-Outcome s g pid msg disconnected now info o c there same owned hosted =
      let players = set_erase pid info.players in
      let n = length players % 4294967296 in
      let t = edit s info.session (with_count n) in
      elim (Bool-cases (is_empty players)) [
        | inl gone ↦ inl (gone, rw gone (unregister_found-gone t g pid (lookup g t.sessions) refl))
        | inr some_left ↦ inr (
          some_left,
          rw some_left (
              subst (λ (k : ℕ). IsRun (hand_over t pid info o players) k players) same
                (hand_over-IsRun t pid info (with_count n o) info.players
                  (pointed-edit s info.session (with_count n) o there) owned hosted some_left)),
        )
      ]

  remove_found-Outcome :
      (s : Local Time) (g pid : ℕ) (msg : Bytes) (disconnected : Bool) (now : Bytes)
      (info : SessionInfo) (o : MatchmakeSession Time) (c : SplatoonClient)
      → pointed s info.session ≡ some o
      → o.gathering.id ≡ g
      → has o.gathering.owner_pid info.players ≡ true
      → has o.gathering.host_pid info.players ≡ true
      → has pid info.players ≡ true
      → lookup pid s.splatoon_clients ≡ some c
      → Outcome
          (remove_found s g pid msg disconnected now (some info)).0
          g
          (set_erase pid info.players)
  unfolding remove_found remove_member
  remove_found-Outcome s g pid msg disconnected now info o c there same owned hosted member known =
      rw (member, there, known)
        (remove_registered-Outcome s g pid msg disconnected now info o c there same owned hosted)

  -- Where a registered player leaves a session that is owned and hosted by players and counts
  -- them, nobody is left and the session is gone, or the players that are left have a session with
  -- this ID that is owned and hosted by some of them and counts them.
  pub remove_player-Outcome :
      (s : Local Time) (g pid : ℕ) (msg : Bytes) (disconnected : Bool) (now : Bytes)
      (players : List ℕ) (c : SplatoonClient)
      → IsRun s g players
      → has pid players ≡ true
      → lookup pid s.splatoon_clients ≡ some c
      → Outcome
          (remove_player_from_session s g pid msg disconnected now).0
          g
          (set_erase pid players)
  unfolding remove_player_from_session
  remove_player-Outcome s g pid msg disconnected now players c run member known =
      let left = λ (ps : List ℕ). has pid ps ≡ true in
      rw run.found (
        subst
          (λ (ps : List ℕ).
            Outcome (remove_found s g pid msg disconnected now (some run.info)).0 g
              (set_erase pid ps))
          run.keeps
          (remove_found-Outcome s g pid msg disconnected now run.info run.object c run.points
            run.same_id
            (subst (λ (ps : List ℕ). has run.object.gathering.owner_pid ps ≡ true) (sym run.keeps)
              run.owned)
            (subst (λ (ps : List ℕ). has run.object.gathering.host_pid ps ≡ true) (sym run.keeps)
              run.hosted)
            (subst left (sym run.keeps) member) known))
