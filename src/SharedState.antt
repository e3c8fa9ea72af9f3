-- ===== src/SharedState.antt =====
-- The state of sharedState/localSharedState.hpp, with the records of nex/friends/friendsSecure.hpp
-- and nex/splatoon/splatoonSharedTypes.hpp that it keeps. The session objects lie in a heap, since
-- the gatherings of a client point to the same objects as the sessions do. The lock that each
-- operation holds makes it one step.
pub mod Friends
pub mod Clients
pub mod Sessions
pub mod Heap
pub mod Invariant
pub mod Steps
pub mod Refinement
pub mod Outcomes
use splatit.Base.{
  ℕ, zero, suc, ◌+◌, ◌%◌, ◌^◌, ◌≡◌, Bool, true, false, Option, none, some, List, [], ◌∷◌, ◌++◌,
  ◌==◌, if◌then◌else◌, length,
}
use splatit.Base.Bytes.{Bytes}
use splatit.Prudp.Server.{PrudpAddress, Ipv4Addr}
use splatit.Nex.Matchmake.Session.{MatchmakeSession}

pub data SsResult : Type 0 where
  success failure : SsResult

-- `ClientInfo` of nex/rmc/server.hpp
pub record RmcClient : Type 0 where
  pub address : PrudpAddress
  pub minor_version : ℕ
  pub substream_id : ℕ
  pub server_id : ℕ
  pub pid : ℕ

pub record UserPreference : Type 0 where
  pub show_online : Bool
  pub show_playing : Bool
  pub block_friend_request : Bool

pub record UserData : Type 0 where
  pub pid : ℕ
  pub preference : UserPreference

pub record FriendsClient : Type 0 where
  pub client : RmcClient
  pub user_data : UserData
  pub friends : List ℕ

-- `Protocol` and the fields of `StationURL`.
pub data Protocol : Type 0 where
  no_protocol udp prudp prudps : Protocol

pub record StationUrl : Type 0 where
  pub proto : Protocol
  pub ip : Option Ipv4Addr
  pub port : Option ℕ
  pub stream : Option ℕ
  pub sid : Option ℕ
  pub cid : Option ℕ
  pub pid : Option ℕ
  pub type : Option ℕ
  pub rvcid : Option ℕ
  pub natm : Option ℕ
  pub natf : Option ℕ
  pub upnp : Option Bool
  pub pmp : Option Bool
  pub probeinit : Option Bool
  pub pl : Option ℕ

pub record NatProperties : Type 0 where
  pub mapping : ℕ
  pub filtering : ℕ
  pub rtt : ℕ

-- A shared pointer is the place of its object in the heap, and `none` is the null pointer.
pub record SplatoonClient : Type 0 where
  pub client : RmcClient
  pub urls : List StationUrl
  pub public_url : StationUrl
  pub rv_conn_id : ℕ
  pub joined_gatherings : List (Option ℕ)
  pub nat_properties : NatProperties

pub record SessionInfo : Type 0 where
  pub session : Option ℕ
  pub players : List ℕ

pub record Local (Time : Type 0) : Type 0 where
  pub server_id : ℕ
  pub rpc_address : Bytes
  pub heap : List (MatchmakeSession Time)
  pub friends_clients : List (ℕ × FriendsClient)
  pub splatoon_clients : List (ℕ × SplatoonClient)
  pub sessions : List (ℕ × SessionInfo)

module _ {Time : Type 0} where
  -- `*pointer`
  abbrev pub object_at : List (MatchmakeSession Time) → ℕ → Option (MatchmakeSession Time)
  object_at [] a = none
  object_at (o ∷ os) zero = some o
  object_at (o ∷ os) (suc a) = object_at os a

  -- A write through a pointer.
  abbrev pub write_at :
      (MatchmakeSession Time → MatchmakeSession Time)
      → List (MatchmakeSession Time)
      → ℕ
      → List (MatchmakeSession Time)
  write_at f [] a = []
  write_at f (o ∷ os) zero = f o ∷ os
  write_at f (o ∷ os) (suc a) = o ∷ write_at f os a

  abbrev pub with_count : ℕ → MatchmakeSession Time → MatchmakeSession Time
  with_count n o = record o { participation_count = n }

  -- `session->participationCount = static_cast<uint32_t>(players.size())`
  abbrev pub set_count :
      List (MatchmakeSession Time) → Option ℕ → List ℕ → List (MatchmakeSession Time)
  set_count heap none players = heap
  set_count heap (some a) players = write_at (with_count (length players % 2 ^ 32)) heap a

  abbrev has_id : ℕ → Option (MatchmakeSession Time) → Bool
  has_id g none = false
  has_id g (some o) = o.gathering.id == g

  -- `gathering && gathering->id == gId`
  abbrev pub is_of : List (MatchmakeSession Time) → ℕ → Option ℕ → Bool
  is_of heap g none = false
  is_of heap g (some a) = has_id g (object_at heap a)

-- The first element that `find_if` gives: is there one, without it, and with another in its place.
module _ {A : Type 0} (p : A → Bool) where
  abbrev pub any : List A → Bool
  any [] = false
  any (x ∷ xs) = let rest = any xs in if p x then true else rest

  abbrev pub erase_first : List A → List A
  erase_first [] = []
  erase_first (x ∷ xs) = let rest = erase_first xs in if p x then xs else x ∷ rest

  abbrev pub replace_first : A → List A → List A
  replace_first y [] = []
  replace_first y (x ∷ xs) = let rest = replace_first y xs in if p x then y ∷ xs else x ∷ rest
