-- ===== src/StreamParser/Thread.antt =====
-- The thread of the parser: src/StreamParser.cpp with the queue and the thread of `Worker`.
use cppami.Prelude.{◌<◌, ◌≡◌, none, List, ◌∷◌, ◌++◌, length, concat, ◌∙◌}
use cppami.StreamParser.Banner.{Begun, process_chunks-Begun}
use cppami.StreamParser.{initial, process_chunks}
use cppami.Text.{Bytes, index_of, eor, size_mod}
use cppami.Worker.Delivery.{finished-added}
use cppami.Worker.{Worker, start, Reach, finished}

-- If the first chunk holds the whole version line, and no chunk is added behind the stop, then in
-- whatever order the threads took their steps, the parser's thread, once it has ended, has made
-- these callbacks: the version, then each message of the stream that the chunks make, in order.
pub finished-Begun :
    {w : Worker Bytes} (banner rest : Bytes) (cs : List Bytes)
    → Reach start w
    → w.place ≡ finished
    → w.added ≡ w.promised
    → w.added ≡ (banner ++ (eor ++ rest)) ∷ cs
    → index_of eor banner ≡ none
    → length (banner ++ (eor ++ rest)) < size_mod
    → let r = process_chunks initial w.processed in Begun banner (rest ++ concat cs) r.0 r.1
finished-Begun banner rest cs reach ended all chunks h b =
    rw (finished-added reach ended all ∙ chunks) (process_chunks-Begun banner rest cs h b)
