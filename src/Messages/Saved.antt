-- ===== src/Messages/Saved.antt =====
-- What `fromSaved` makes of the messages that `forSave` hands to the server. What the server keeps
-- of them (the last ones, of bounded lengths) is not part of it.
use dgx_spark_llm_platform.Base.{List, Option, none, ◌≡◌, refl}
use dgx_spark_llm_platform.Base.Text.{Text}
use dgx_spark_llm_platform.Messages.{ChatMsg, chat_images, from_saved}
use dgx_spark_llm_platform.Messages.Images.{all_images}

-- The message less its images and edited files, as it comes back.
abbrev pub back : ChatMsg → ChatMsg
back m = record (from_saved m) { images = none; file_edits = none }

abbrev pub bare : ChatMsg → ChatMsg
bare m = record m { images = none }

pub images_kept :
    (m : ChatMsg) (images : Option (List Text))
    → chat_images.images_of (chat_images.with_images m images) ≡ images
images_kept m images = refl

-- All images of a conversation.
abbrev pub chat_all : List ChatMsg → List Text
chat_all msgs = all_images chat_images msgs
