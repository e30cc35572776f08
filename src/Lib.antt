-- ===== src/Lib.antt =====
-- The front end of the portal (dgx-portal-frontend): a Next.js application whose proxy gates every
-- request, and whose playground turns the text a language model streams into questions, files and
-- diffs. This library models its own logic, file by file, and leaves the rendering to React.
--
-- Parts, with paths from the repository's root:
--
-- * Diff.antt models dgx-portal-frontend/lib/diff.ts: `diffLines` is diff_lines (the common start
--   and end are trimmed by common_start and trim_end, the table of the longest common subsequence
--   is fill_table, and the walk over it is walk), `hunks` is hunks and `diffStats` is diff_stats.
-- * Repair.antt models the repairs of a model's JSON in
--   dgx-portal-frontend/lib/playground-parsers.ts: `repairClosings`, `balanceJson`,
--   `escapeRawControlChars`, `firstJsonValue` and `objectEnd`. Their common scan over strings and
--   escapes is scan; each loop is a recursion on the text with its variables as arguments.
-- * Gate.antt models dgx-portal-frontend/lib/session-gate.ts, Backend.antt models
--   dgx-portal-frontend/lib/backend.ts and Proxy.antt the function `proxy` of
--   dgx-portal-frontend/proxy.ts, which uses both: after_gate is what follows the call of
--   `gateDecision`. What the session check answers is an argument, with none for a time-out or an
--   unreachable backend, and so is the nonce.
-- * Zip.antt models dgx-portal-frontend/lib/zip.ts: the table of `crc32` is crc_entry, the loop of
--   `zipFiles` over its files is add_files, and the final copy of all parts is place.
-- * Messages.antt models dgx-portal-frontend/lib/playground-messages.ts: `isLooping`,
--   `recentImages` (the loop over messages is keep_recent, that over the images of one message
--   keep_images), `fromSaved`, `withoutImages` and `forSave`. Messages/Live.antt is the module's
--   live turn, whose state is explicit and whose objects are numbers, and Messages/Follow.antt
--   what `usePendingFollow` computes in each round of its timers.
--
-- * Export.antt models dgx-portal-frontend/lib/export.ts, with the translation as a parameter, and
--   Sse.antt models dgx-portal-frontend/lib/sseProxy.ts: the effects of `proxySSE` are a list, in
--   order.
--
-- * Decisions.antt models dgx-portal-frontend/lib/decisions.ts up to `validatePayload`, with
--   `JSON.parse` and `JSON.stringify` as parameters; each early return is a constructor of
--   Refusal, and Decisions/Value.antt is the type of JSON values.
--
-- * Rejoin.antt models `splitLines`, `rejoin` and `joinLine` of
--   dgx-portal-frontend/lib/playground-parsers.ts: best_match and best_from are the two outer
--   loops, common_lines the inner one, and overlap the loop of `joinLine`, which counts down.
--
-- * Ask.antt models the questions of an answer, from the same file: `questionCandidates`,
--   `fileBounds`, `containsQuestions`, `incompleteResponse` and `parseAsk`. Ask/Blocks.antt is the
--   matching of its regular expressions, Ask/Values.antt the repair chain with `parseEdits` and
--   `questionsOf`, and Ask/Continued.antt `continuationBody` and `splitInlineThink`. `JSON.parse`
--   and `toLowerCase` are parameters; a function that throws is none.
--
-- * Files.antt models the files of a thread in dgx-portal-frontend/lib/playground-thread.ts:
--   `filesUntil`, `fileVersions`, `messageMerge`, `fileLeftOpen` and `applyEdits`; a map is the
--   list of its entries in order, and `parseArtifacts` is a parameter. Files/Names.antt is the
--   table of languages and Files/Fragments.antt `messageFragments`.
--
-- * Script.antt models `finalDepth` of dgx-portal-frontend/lib/playground-thread.ts: the index and
--   its inner loops become a mode, and one character is read at each step.
--
-- * Fence.antt models `isQuestionsBlock`, `closedContent` and `openCodeFence` of
--   dgx-portal-frontend/lib/playground-parsers.ts: count_from counts the matches of the fence, and
--   last_fence is `lastIndexOf`.
--
-- * Stream.antt models the streams of dgx-portal-frontend/lib/api.ts (`readSSE` with its buffer,
--   and what `streamChat`, `streamOcr` and `streamSupportChat` report of a packet), with
--   `JSON.parse` as a parameter, and Http.antt its requests, whose answers are an argument.
--
-- * Passkey.antt models dgx-portal-frontend/lib/webauthn.ts, with the browser's base64.
--
-- * Mic.antt models `MicListener` of dgx-portal-frontend/lib/voiceAudio.ts: process is `process`,
--   one frame at a time, with the callbacks as a list and the verdict on the energy as part of the
--   frame.
--
-- * Voice.antt models `nextSentences` of dgx-portal-frontend/lib/voice-text.ts, and of `VoiceMode`
--   (dgx-portal-frontend/app/(app)/playground/_components/VoiceMode.tsx) the effect on the answer,
--   which is watch, and how `pump` takes a sentence; `speakable` is a parameter. Player.antt
--   models how `speak` of dgx-portal-frontend/lib/voiceAudio.ts cuts the bytes that arrive into
--   samples. Wav.antt models `encodeWav` of dgx-portal-frontend/lib/audioRecorder.ts and the end
--   of `toWav` of dgx-portal-frontend/lib/voiceAudio.ts, from samples of 16 bits; Wav/Reader.antt
--   reads the format.
--
-- * Seed.antt models dgx-portal-frontend/lib/seed.ts, with the set of claimed seeds as a state,
--   and Conversations.antt models dgx-portal-frontend/lib/conversations.ts, on top of Http.antt.
--
-- * Href.antt models `safeHref` and `SafeLink` of dgx-portal-frontend/lib/markdown.tsx, and
--   Href/Browser.antt what the URL standard makes of a URL before its scheme is read.
--
-- * Base.antt and its children hold what the parts share: texts, lists, and a counter that may be
--   negative.
--
-- A JavaScript string is the list of its UTF-16 units (Text). Where the source iterates over code
-- points, it only looks at ASCII characters, and a unit of a surrogate pair is never one. A
-- length, an index and a counter are natural numbers without a bound, as they stay far below 2^53;
-- the cells of the diff's table and the fields of an archive wrap around at their width, as typed
-- arrays do. No definition has fuel: each recursion is structural, and the walk of the diff
-- recurses on the two lists of lines it has yet to pass.
--
-- Not modelled: React components and hooks (but for what is named above), the decoding and playing
-- of sound, the interface's strings, and the other programs of the repository (the Rust portal,
-- the runner, the Python services).
pub mod Base
pub mod Diff
pub mod Repair
pub mod Gate
pub mod Backend
pub mod Proxy
pub mod Zip
pub mod Messages
pub mod Export
pub mod Sse
pub mod Decisions
pub mod Rejoin
pub mod Script
pub mod Fence
pub mod Stream
pub mod Http
pub mod Passkey
pub mod Mic
pub mod Ask
pub mod Files
pub mod Voice
pub mod Seed
pub mod Conversations
pub mod Player
pub mod Wav
pub mod Href
