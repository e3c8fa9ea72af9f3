-- ===== src/Lib.antt =====
-- Splatit is a server for Nintendo's NEX games: UDP datagrams carry PRUDP packets, a PRUDP server
-- keeps the clients, puts their reliable packets in order and acknowledges them, and hands messages
-- to an RMC server, whose messages carry typed objects and whose protocols keep matchmake sessions in a
-- shared state. This library models the packets, the server under them, the RMC messages, the types of
-- their parameters, the shared state of a single server, and the matchmaking of Splatoon on it.
--
-- Paths are from the repository's root.
--
-- Crypto: the class ARC4 of src/crypto/arc4.cpp. MD5 and HMAC-MD5 call OpenSSL and are a parameter,
-- the record Digest. Prudp.Packet: the classes of src/nex/prudp/packet.hpp as one record, since the
-- server treats them alike; an encoder is a value, written back where a shared pointer would lead.
-- Prudp.V0 and Prudp.V1: encode, decode, signatures and checksums of src/nex/prudp/packet.cpp, and in
-- their child modules what they take of a datagram and read back.
--
-- Prudp.Kerberos: src/nex/prudp/kerberos.cpp, the check of a connection request, with Datetime::decode
-- of src/nex/types/common/datetime.hpp; how a date becomes a time is a parameter.
--
-- Prudp.Server: the state of src/nex/prudp/server.hpp (clients with their substreams, delayed packets,
-- the events that leave the server), and in child modules the operations of src/nex/prudp/server.cpp.
-- Encoders is PayloadEncoder. Craft makes acknowledgements, pings and aggregate acknowledgements.
-- Clients has deleteNonAckedPacket, closeClientConnection and resetPingTask. Send has sendBytes,
-- sendPacket and sendDataPacket. Handle is handlePacket. Queue is processPacketQueue, whose end says
-- whether it returned, threw, or followed a null pointer. Receive is processPacket and the packet loop
-- of onData. Process is process. The time is an argument of each operation, and dataFunc of the
-- registered RMC server is a parameter that may change the server and may throw.
--
-- Rmc.Request and Rmc.Response: src/nex/rmc/request.cpp and src/nex/rmc/response.cpp.
--
-- Nex: the types of src/nex/types. A class is a codec: a new object, what encode writes, and what
-- decode makes of an object and some bytes, with the size that it returns. Ints, Text, Containers,
-- Values, Variant and Holder are the classes of src/nex/types/common; the calendar of std::chrono and
-- the clock are a parameter, the record Calendar. Structure has the headers, and the shapes of the
-- classes under Structure and under Data: the codecs of the fields one behind the other, which Nex
-- puts together as pairs. Friends has the classes of src/nex/types/friendsSecure, Matchmake and
-- Ranking those of src/nex/types/splatoonSecure. Laws keeps the laws of codecs as records, so that the
-- laws of a class follow its fields. A Bool is its byte, an enumeration its number, a Double its eight
-- bytes. Each object has the minor version of the object that it is a field of.
--
-- SharedState: the state of src/sharedState/localSharedState.hpp, with its operations on the clients
-- of the friends server (Friends), on those of the Splatoon server (Clients) and on matchmake sessions
-- (Sessions). Session objects lie in a heap and a shared pointer is a place in it, since clients and
-- sessions point to the same objects. Steps runs the operations in any order, beside callers that
-- write to objects of their own; Refinement has the specification, a map from session IDs to players.
--
-- Splatoon: the matchmaking of src/nex/splatoon/splatoonSecure.cpp, over the local shared state; what
-- sendMsg and sendNotification send are events in their order. Join makes sessions and joins them,
-- Participation has the handlers of one session, Queries those that look for one or give it away;
-- removePlayerFromSession and unregisterGathering_internal are in Splatoon itself. IDs, keys and times that a handler draws are
-- arguments, and the calls of the shared state are complete at once, with no other handler between
-- them.
--
-- Base has what the parts share: lists and Boolean tests on the native numbers, bytes and
-- little-endian integers, bit operations, maps as association lists, and C++ exceptions as results.
-- Tests has concrete data and the theorems at it.
--
-- Integers keep their wrap-around, written out by a remainder, where the code lets them wrap. Loops run
-- on fuel: the option loop of PacketV1::decode on the number of bytes, as each round takes two; the
-- loop of sendPacket on the length of the payload, as each round takes bytes; the loop of
-- processPacketQueue on the length of the queue, as each round takes a packet; the loop of process on
-- the length of the delayed packets, as each round takes one that is due and adds none; the loop of
-- onData on the length of the datagram, as each packet takes bytes. Reads out of range, which are
-- undefined in the code, give a default value, and stand with a comment.
--
-- Not modelled: the proxy header of onData, listen, stop and logging; createTicket, which draws random
-- keys; the text of a StationURL, RVConnectionData, PlayingSession, CompetitionRankingScoreInfo,
-- MatchmakeBlockListParam and ParamParser among the NEX types; the RMC server; the friends and
-- authentication protocols, and the other Splatoon handlers; the shared state in Redis; sockets,
-- threads and locks; HTTP, BOSS, databases and gRPC.
pub mod Base
pub mod Crypto
pub mod Nex
pub mod Prudp
pub mod Rmc
pub mod SharedState
pub mod Splatoon
pub mod Tests
