-- ===== src/Lib.antt =====
-- A model of the ActivityPub gateway between the Fediverse and a Warpnet node, and its proofs.
--
-- The gateway serves Warpnet users as ActivityPub actors. An activity that reaches an inbox is
-- verified against the HTTP signature of its actor and becomes a request to a member node; posts
-- and follows of a user with Fediverse followers are polled from the network and delivered to
-- remote inboxes. A rate limiter stands in front of the public endpoints, a guard in front of
-- every fetch. Warpnet nodes read and write the Fediverse through the bridge, over signed streams.
--
-- Base and Text hold what the parts share: natural numbers, lists, results, association lists, and
-- Go strings as lists of bytes. Url and Json hold the libraries' types; Base64 is RawURLEncoding.
--   Wire            warpdto.go: routes and payloads
--   Actor           server.go, inbound.go, followers.go: actor and status URLs, Fediverse ids
--   Quote           mastodon-map.go: htmlToText, quotedNoteURL and the readers of quotes
--   Inbound         inbound.go: translateInbound
--   HttpSig         httpsig.go: parseSignatureHeader, verifyRequest; Header the text of the header,
--                   Sign signRequest
--   Inbox           inbox.go: handleInbox, handleInboundActivity, acceptFollow, the semaphore
--   RateLimit       rate-limit.go: Queue is taskQueue, Clients the cache of limiters, Drain is drain,
--                   Price isControlPlane and requestWeight, Middleware the middleware
--   LogRing         log-buffer.go
--   Server          server.go: handleUsers, handleWebFinger, handleLogs; Routes is routes
--   Notes           notes.go, mediaproxy.go: notes for tweets, media references
--   Collections     server.go: the followers, following, outbox and replies of a user
--   Remote          server.go: checkRemoteURL, fetchActor, fetchKey, remoteInbox, postSigned; Cache is
--                   sendRetry and signedGet, Client newSafeClient
--   Followers       followers.go, nodefollowers.go: the stores of followers
--   Outbound        outbound.go: outboundFederation; Follows is followPoller, Scans a whole scan,
--                   Pollers the pollers of all users
--   TweetPoller     tweetpoller.go
--   Publish         publish.go
--   ActorDoc        server.go, badge.go, source.go: buildActor, the instance actor
--   MastodonMap     mastodon-map.go: noteToTweet, actorToUser and their helpers
--   Bridge          mastodon-bridge.go: Resolve is resolveActorID and getUser, Rest the statuses of
--                   the REST interface, Items activityToTweet and fillQuotedAuthor, Status GetTweet,
--                   Timeline GetTweets, OwnStatus nativizeOwnStatus, Replies GetReplies, Lists
--                   followList, Stats GetTweetStats and GetImage, Write React, Announce, Follow, Reply
--                   and Delete
--   NodeServer      nodeserver.go: streamHandler; Routes is serveRoutes
--   Stream          warpwire.go, discovery.go: streamSend, streamToMember
--   Members         discovery.go, nodeclient.go: candidates, requestUser; Request is tryMembers,
--                   Join networkEntries and connectNetwork
--   Keys            keys.go, httpsig.go: loadOrCreateKey, publicKeyPEM, parseRSAPublicKeyPEM
--   Start           main.go; Parts is what the process opens and closes
--   Tests           the theorems at concrete inputs
-- A function of the source has its name in lower case with underscores: translateInbound is
-- translate_inbound. State is passed explicitly; what a goroutine is started for is a value.
--
-- Bounds: nodeFollowerStore.List and scan read at most 100 pages, which is the fuel of list_pages
-- and scan_pages; apReplies reads at most 5 pages, the fuel of page_loop; every other loop is over
-- a list or a document. Times are natural numbers of nanoseconds. Sizes and counts are far below 2
-- ^ 63, so integers are natural numbers, with a sign where the code has one.
-- A fetch follows redirects on fuel of five requests, which checkRedirect's bound makes enough.
--
-- Parameters: the URL parser, package strings where it decodes runes, the tag stripper,
-- encoding/json, encoding/pem, crypto/x509, the signature library and the hash, the caches of
-- golang-lru and the limiter of ratelimiter (what is evicted and when is theirs; a theorem that needs
-- a law of them has it as a hypothesis), the environment,
-- the files, the steps of libp2p and Tailscale, and whatever another server or node answers.
--
-- A fetch gives the answer at the end of its redirects; only Remote/Client has the requests one by
-- one.
--
-- Not modelled: trace.go (numbered log lines), the NodeInfo document and static files, the options
-- of the libp2p host, the log output, and the order in which goroutines that run side by side take
-- their turns: a request, a round of a poller or a delivery is one step.
pub mod Actor
pub mod ActorDoc
pub mod Base
pub mod Base64
pub mod Bridge
pub mod Collections
pub mod Followers
pub mod HttpSig
pub mod Inbound
pub mod Inbox
pub mod Json
pub mod Keys
pub mod LogRing
pub mod MastodonMap
pub mod Members
pub mod NodeServer
pub mod Notes
pub mod Outbound
pub mod Parts
pub mod Publish
pub mod Quote
pub mod RateLimit
pub mod Remote
pub mod Server
pub mod Start
pub mod Stream
pub mod Tests
pub mod Text
pub mod TweetPoller
pub mod Url
pub mod Wire
