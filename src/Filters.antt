-- ===== src/Filters.antt =====
-- The message filters of src/core/filters.cpp and the operators of include/cppgram/filters.hpp.
pub mod Command
mod Tests
use cpp_gram.Common.{
  ℕ, Bool, true, false, not, ◌&&◌, ◌||◌, equal, List, [], ◌∷◌, Option, none, some, if◌then◌else◌,
  ◌==◌,
}
use cpp_gram.Message.{
  Message, ChatType, MediaType, private_chat, basic_group, supergroup, has_media,
}

abbrev pub MessageFilter : Type 0
MessageFilter = Message → Bool

unfoldable pub both : MessageFilter → MessageFilter → MessageFilter
both a b m = a m && b m

unfoldable pub either : MessageFilter → MessageFilter → MessageFilter
either a b m = a m || b m

unfoldable pub negated : MessageFilter → MessageFilter
negated f m = not (f m)

-- What stands in front of the first ` ` or `@`: `find_first_of(" @", 1)` and `substr`.
unfoldable pub word : List ℕ → List ℕ
word [] = []
word (c ∷ s) = let rest = word s in if (c == b' ') || (c == b'@') then [] else c ∷ rest

unfoldable pub calls : List ℕ → List ℕ → Bool
unfolding word
calls cmd [] = false
calls cmd (c ∷ s) = if not (c == b'/') then false else equal (word s) cmd

unfoldable pub command : List ℕ → MessageFilter
unfolding calls
command cmd m = calls cmd m.text

abbrev is_some : {A : Type 0} → Option A → Bool
is_some none = false
is_some (some a) = true

abbrev holds : {A : Type 0} → (A → Bool) → Option A → Bool
holds f none = false
holds f (some a) = f a

unfoldable private_chat_filter : MessageFilter
private_chat_filter m = elim m.chat_type [ private_chat ↦ true | _ ↦ false ]

unfoldable group : MessageFilter
group m = elim m.chat_type [ basic_group ↦ true | supergroup ↦ true | _ ↦ false ]

unfoldable channel : MessageFilter
channel m = elim m.chat_type [ ChatType.channel ↦ true | _ ↦ false ]

unfoldable text : MessageFilter
text m = elim m.text [ [] ↦ false | c ∷ s ↦ true ]

unfoldable media : MessageFilter
unfolding has_media
media m = has_media m

-- `m.media == t`, one filter for each of the types below.
unfoldable photo : MessageFilter
photo m = elim m.media [ MediaType.photo ↦ true | _ ↦ false ]

unfoldable video : MessageFilter
video m = elim m.media [ MediaType.video ↦ true | _ ↦ false ]

unfoldable document : MessageFilter
document m = elim m.media [ MediaType.document ↦ true | _ ↦ false ]

unfoldable audio : MessageFilter
audio m = elim m.media [ MediaType.audio ↦ true | _ ↦ false ]

unfoldable voice : MessageFilter
voice m = elim m.media [ MediaType.voice ↦ true | _ ↦ false ]

unfoldable video_note : MessageFilter
video_note m = elim m.media [ MediaType.video_note ↦ true | _ ↦ false ]

unfoldable animation : MessageFilter
animation m = elim m.media [ MediaType.animation ↦ true | _ ↦ false ]

unfoldable sticker : MessageFilter
sticker m = elim m.media [ MediaType.sticker ↦ true | _ ↦ false ]

unfoldable poll_msg : MessageFilter
poll_msg m = elim m.media [ MediaType.poll ↦ true | _ ↦ false ]

unfoldable location_msg : MessageFilter
location_msg m = elim m.media [ MediaType.location ↦ true | _ ↦ false ]

unfoldable contact_msg : MessageFilter
contact_msg m = elim m.media [ MediaType.contact ↦ true | _ ↦ false ]

unfoldable dice : MessageFilter
dice m = elim m.media [ MediaType.dice ↦ true | _ ↦ false ]

unfoldable bot : MessageFilter
bot m = m.sender.is_bot

unfoldable outgoing : MessageFilter
outgoing m = m.outgoing

unfoldable pub incoming : MessageFilter
incoming m = not m.outgoing

unfoldable reply : MessageFilter
reply m = is_some m.reply_to

unfoldable forwarded : MessageFilter
forwarded m = m.has_forward_info

-- `std::regex_search` with a pattern is a function of the text.
unfoldable regex : (List ℕ → Bool) → MessageFilter
regex regex_search m = regex_search m.text

unfoldable chat_id : ℕ → MessageFilter
chat_id id m = m.chat_id == id

unfoldable user_id : ℕ → MessageFilter
user_id id m = m.sender.id == id

unfoldable thread : ℕ → MessageFilter
thread thread_id m = holds (λ t. t == thread_id) m.message_thread_id

unfoldable in_thread : MessageFilter
in_thread m = holds (λ t. not (t == 0)) m.message_thread_id

unfoldable web_app_data : MessageFilter
web_app_data m = m.has_web_app_data

unfoldable business : MessageFilter
business m = is_some m.business_connection_id

unfoldable business_connection_id : List ℕ → MessageFilter
business_connection_id connection_id m =
    holds (λ id. equal id connection_id) m.business_connection_id
