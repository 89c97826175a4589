-- ===== src/Lib.antt =====
-- The web console of a 5G modem (MT5700): the JavaScript that talks to the modem in AT commands.
--
-- The console runs in the browser. Its pages send AT commands through a command client (rpc.js),
-- which caches the answers to reads, retries, and holds back while the modem is busy. A short
-- message is written as PDUs by smsEncode.js, which the client sends in AT+CMGS commands; the
-- messages that come in are PDUs that parse.js reads. All of these are below
-- htdocs/luci-static/resources/at-webserver/ of the repository.
--
-- Sms: the codec of short messages.
--   Gsm7, Septets: the GSM alphabet, packSeptets, bitsToOctets and unpackSeptets.
--   UserData: buildUserData of smsEncode.js, and the part of decodeIncomingPdu of parse.js that reads
--     a user data field and its header.
--   Chunks: gsm7Chunks, ucs2Chunks, messageStats. Submit: buildTpdu, buildSubmitParts.
--   Address: encodeAddress, decodeAddress. Deliver: dcsEncoding, decodeTimestamp, decodeIncomingPdu.
--   Commands: buildPduSendCommand, buildTextSendCommand, sanitizeSmsText, toUcs2Hex.
-- Cache: the command client of rpc.js.
--   Cache: isRetryableRead, cacheTtlFor, isErrorText, isBusyError, normalizeCommand.
--   Store: _cacheGet, _cachePut, _dropStateCache, cacheStats.
--   Warm: warmCache.
--   Sends: sendCommand, in three steps: into the queue, run, note the result.
-- Link: the connection of rpc.js: connect, disconnect, reconnect, pollEvents, handlePush, subscribe,
--   unsubscribe. Polling: when it polls. Bus: the event bus of src/rust/src/rpcserver.rs, the calls of
--   rpcEvents that wait for its answers, and what the subscribers are given (Given).
-- Tlv: the BER-TLV of euicc.js: readTlvHead, tlvHex, readTlvAt, and the split of a profile package
--   into segments (splitBoundProfilePackage) and of a segment into parts. readTlvAt is that on
--   hexadecimal strings, which are all that it is given.
-- Esim: the commands for the eSIM of euicc.js.
--   Texts, Answers: parseCsimAnswer, parseCglaAnswer, atFailure, the levels of swInfo. Apdus:
--     csimCommand, cglaCommand, storeDataApdu, buildGetProfiles, buildProfileOperation.
--   Exchange: sendAndCollect, doClose. Session: selectAndPing, withIsdrSession, runOperation,
--     es10Result. Codes: parseActivationCode, buildActivationCode. Utf8: utf8ToBytes, utf8FromBytes,
--     buildSetNickname. Chunks: buildEs10bRawChunks, buildEs10bChunks. Late: recoverAfterTimeout.
--     Profiles: parseGetProfiles, swapNibbles, iccidKey, tlvFindHex, normalizeIccid,
--     iccidFromProfileMetadata; five levels of tlvFindHex are those that its depth allows, and each of
--     its elements takes four digits at least. Binds, Growth: lemmas on chains of promises.
-- Masks: hexBit, hexMaskSubset and the masks of sysCfgApplyCheck of parse.js.
-- Locks: checkArfcn, checkPci, toLockLists and buildLockCommand of parse.js.
-- Base: lists, strings and Boolean tests that the parts share.
--
-- A string is the list of its UTF-16 code units. An exception or a null is none. Loops are structural
-- recursion; where the source counts, the number of rounds is an argument: ucs2Chunks has as many as
-- the message has units and each takes one at least, the padding to a septet has seven, the number
-- conversions have as many as the number. The rounds of GET RESPONSE are maxRounds of the source. A
-- modem is a function of the commands that it was sent, so that every theorem about a session is about
-- every modem; the chains of promises of euicc.js run to their end one after the other. The random
-- reference number of a message, the clock (JavaScript's Date), the replies of the modem with their
-- times, and atob and TextDecoder of the browser are arguments.
--
-- Not modelled: the pages and their DOM, the parsers of the other answers in parse.js and rpc.js, probe,
-- the download and the notifications of euicc.js, the vendored QR decoder jsqr.js, and the backend in Rust,
-- ucode and shell but for its event bus. What parseRawData of rpc.js makes of a text is an argument.
-- Upper case is that of ASCII letters, in which commands are written. Strings that decodeIncomingPdu is
-- given are taken to be hexadecimal; a place that turns into NaN there is none. The tpduLength of a
-- destination of 256 digits or more has half an octet in the source, which the model leaves out.
pub mod Base
pub mod Sms
pub mod Cache
pub mod Link
pub mod Tlv
pub mod Esim
pub mod Masks
pub mod Locks
