-- ===== src/Lib.antt =====
-- chantools: what lightninglabs/chantools computes when it recovers the funds of Lightning
-- channels.
--
-- The program is a set of commands around lnd's and btcd's libraries. Its own logic is modelled
-- here: how keys are derived and addresses checked (lnd/hdkeychain.go), how channels are summed up
-- from a block explorer (btc/, dataformat/), how the keys of closed channels are found
-- (cmd/chantools/rescueclosed.go), how two nodes put together the offer by which they close zombie
-- channels (cmd/chantools/zombierecovery_findmatches.go, zombierecovery_preparekeys.go and
-- zombierecovery_makeoffer.go), how outputs of force closes are found and swept
-- (cmd/chantools/sweeptimelock.go, sweeptimelockmanual.go, sweepremoteclosed.go), how the keys of
-- a Pool account and tweaked keys are found (cmd/chantools/closepoolaccount.go,
-- rescuetweakedkey.go), and how channel backups are filtered and repaired. The commands call the
-- derivation; the rescue and the time lock sweep read the entries of a summary; the offer reads
-- what the preparation writes; the sweep of remote closed channels uses the cache of the rescue
-- and the explorer's unspent outputs.
--
-- The files and the code that they are about:
--
-- Prelude: shared names and helpers; Prelude/Outcome is the result of a Go function (a value, an error or
--   a panic), Prelude/Text has texts and `strings`, Prelude/Text/Decimal has `strconv`.
-- HdKeychain/Path: ParsePath, the printed paths and AllDerivationPaths of lnd/hdkeychain.go; RoundTrip and
--   Printed read paths back.
-- HdKeychain/Derive: DeriveChildren, DeriveKey and PrivKeyFromPath; Depth compares them with lnd's wallet,
--   Safety is about the look ahead.
-- HdKeychain/Ring: HDKeyRing; Check is about CheckDescriptor, Identity about NodePubKey.
-- HdKeychain/Ecdh: ECDH of lnd/signer.go.
-- HdKeychain/Address: CheckAddress, DecodeAddressHash, the scripts and PrepareWalletAddress; Checks says what
--   is accepted.
-- Dataformat: the records of dataformat/summary.go and the conversions of dataformat/input.go.
-- Explorer: btc/explorer_api.go on the explorer's answers; Explorer/Unspent is about Unspent.
-- Summary: btc/summary.go; Round lists the cases of a channel, Values has the outputs of a closing transaction, Outcome
--   says what an entry says; Recount, Facts and Partition are about whole summaries.
-- Rescue: fillCache, addrInCache and keyInCache of cmd/chantools/rescueclosed.go, Rescue/Channels the loops over
--   the channels; Key, Complete and Channels/Found are about what is found.
-- Descriptor: btc/descriptors.go; Xor is `^` on uint64, Linear what the checksum is linear in, Created about the
--   checksum that is appended and Check about what is refused.
-- Offer: cmd/chantools/zombierecovery_makeoffer.go, with the types of zombierecovery_findmatches.go. Files has the
--   checks of Execute, Select the choice of the keys, Keys matchKeys, Ask askAboutChannel, Fees dust and fees.
-- Offer/Prepare: cmd/chantools/zombierecovery_preparekeys.go, with the nonces of lnd/channel.go and the key lookup
--   of lnd/signer.go; Channels, Slots and Agreed are about two nodes that prepare one file.
-- Matching: fetchChannels and the matching of Execute in cmd/chantools/zombierecovery_findmatches.go; Paging and Fresh
--   are about them.
-- TimeLock: bruteForceDelay of cmd/chantools/sweeptimelock.go; Targets has sweepTimeLockFromSummary, Sweep
--   sweepTimeLock, and Manual the searches of sweeptimelockmanual.go with ShaChainFromPath. Delay, Sweep/Total and
--   Manual/Index are about them.
-- Backup: cmd/chantools/filterbackup.go and fixoldbackup.go; Backup/Filter and Backup/Fix are about them.
-- RemoteClosed: cmd/chantools/sweepremoteclosed.go; Ancient has the ancient channels and findTargetsLnd, Sweep
--   sweepRemoteClosed. Owned, Tweaked, Safe and Run are about the targets and their sweep.
-- TweakedKey: cmd/chantools/rescuetweakedkey.go; Search is about testPattern.
-- Pool: the search of cmd/chantools/closepoolaccount.go; Found, Search and Ends are about it.
-- Tests: the theorems at concrete inputs.
--
-- State: the cache of keys and the summary file, which the Go code keeps in variables that it
-- updates, are passed on explicitly; a record that a loop updates is returned. Code of other
-- repositories (hdkeychain, btcec, btcutil, txscript, lnd's input and keychain, the explorer's
-- answers) is a record that the definitions take: KeyLib, AddressLib, TweakLib, ScriptLib,
-- LockLib, ShaLib, ParseLib, PrepareLib, BackupLib, RemoteLib, PoolLib, SecpLib, EcdhLib, Consts,
-- Api; the answers of the GraphQL server are a function of the request, and the nonce with which a
-- backup is encrypted is an argument. What the theorems need of it is in DepthLaws, PairLaws,
-- NonceLaws, PackLaw, ScriptLaws and KindLaws.
--
-- Numbers: uint32 and uint64 wrap around at 2^32 and 2^64, as written out; int64 shares are
-- integers whose sums and differences wrap around. Every loop goes over a list or counts down the
-- rounds that are left (MaxKeyRangeScan, the number of keys), and askAboutChannel's recursion goes
-- over the lines of its input. Only the loops of bruteForceDelay, of the Pool search and of
-- testPattern, whose counters are a uint16, a uint32 and a uint64 that may wrap around, and of
-- fetchChannels, which asks again whenever the server refuses, take fuel, and what calls them:
-- without a result within its fuel a loop gives none. TimeLock.enough, 65537, is a round for each
-- uint16 and one more for the last test, which is all that a run of bruteForceDelay needs that
-- ends; the Pool search needs a round for each block up to the limit and two more, fetchChannels
-- one for each request, and testPattern one for each tweak and one for the last test. Texts are
-- lists of code points.
--
-- Not modelled: flags, files, logs and printed text, JSON and regular expressions, HTTP requests,
-- transactions and their signatures, databases and peer connections, and the other commands.
pub mod Prelude
pub mod HdKeychain
pub mod Dataformat
pub mod Explorer
pub mod Summary
pub mod Offer
pub mod Rescue
pub mod Descriptor
pub mod TimeLock
pub mod Backup
pub mod RemoteClosed
pub mod Pool
pub mod Matching
pub mod TweakedKey
pub mod Tests
